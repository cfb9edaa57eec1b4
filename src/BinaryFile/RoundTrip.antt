-- ===== src/BinaryFile/RoundTrip.antt =====
-- The whole file: what `writeBinaryFile` leaves, `readBinaryFile` reads.
use in_lib.Base.{
  ℕ, ◌+◌, ◌*◌, ◌/◌, ◌%◌, ◌^◌, ◌<◌, ◌≡◌, Bool, true, some, List, ◌++◌, arith, length, All,
}
use in_lib.Router.{Router}
use in_lib.BinaryFile.{read_binary_file, write_binary_file, write_neighbors}
use in_lib.Base.Words.{write_u32}
use in_lib.BinaryFile.Records.{IsStorable, read_routers-write_routers}
use in_lib.BinaryFile.Neighbors.{Distinct, read_and_set_neighbors-write_neighbors}

u32_digits :
    (n : ℕ)
    → n < 2 ^ 32
    → n % 256 + 256 * (n / 256 % 256) + 65536 * (n / 65536 % 256) + 16777216 * (n / 16777216 % 256)
      ≡ n
u32_digits n h = omega arith

-- Writing routers with different ids that the file can hold succeeds, and reading the file gives
-- back the same routers, where `malloc` delivers its blocks.
pub read_binary_file-write_binary_file :
    (malloc_ok : ℕ → Bool) (rs : List Router)
    → ((n : ℕ) → malloc_ok n ≡ true)
    → length rs < 2 ^ 32
    → All IsStorable rs
    → Distinct rs
    → (bytes : List ℕ) × (write_binary_file rs ≡ some bytes)
      × (read_binary_file malloc_ok bytes ≡ some rs)
unfolding read_binary_file write_binary_file
read_binary_file-write_binary_file malloc_ok rs ok small h d =
    let (routers, w, e) = read_routers-write_routers malloc_ok ok rs (write_neighbors rs) h in
    (
      write_u32 (length rs) ++ (routers ++ write_neighbors rs),
      rw w,
      rw (u32_digits (length rs) small)
          (rw ok (rw e (read_and_set_neighbors-write_neighbors rs h d))),
    )
