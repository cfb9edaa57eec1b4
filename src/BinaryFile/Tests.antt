-- ===== src/BinaryFile/Tests.antt =====
-- The round trip of a small file, and what the file cannot hold.
use in_lib.Base.{ℕ, ◌-◌, ◌<◌, ◌≤◌, ◌≡◌, refl, true, none, some, List, [], ◌∷◌, arith, length, All}
use in_lib.Router.{Router, max_neighbors}
use in_lib.Router.Slots.{slots_of}
use in_lib.BinaryFile.{read_binary_file, write_binary_file, write_router}
use in_lib.BinaryFile.Records.{IsStorable}
use in_lib.BinaryFile.Neighbors.{Distinct}
use in_lib.BinaryFile.RoundTrip.{read_binary_file-write_binary_file}

abbrev router : ℕ → List ℕ → ℕ → Router
router id xs k = record {
  router_id = id;
  flag = 0x53;
  producer_model = some (b'a' ∷ b'b' ∷ []);
  neighbors = slots_of xs k;
}

abbrev stored : List Router
stored = router 1 (2 ∷ 7 ∷ []) 8 ∷ router 7 (1 ∷ []) 9 ∷ []

router-IsStorable :
    (id : ℕ) (xs : List ℕ)
    → length xs ≤ max_neighbors
    → All (λ n. n < 256) xs
    → IsStorable (router id xs (max_neighbors - length xs))
router-IsStorable id xs few bytes = record {
  model = b'a' ∷ b'b' ∷ [];
  neighbors = xs;
  has_model = refl;
  text = omega arith;
  not_empty = omega arith;
  short = omega arith;
  has_neighbors = refl;
  few = few;
  bytes = bytes;
}

stored-Distinct : Distinct stored
stored-Distinct = ((omega arith, tt), (tt, tt))

read_binary_file-write_binary_file_example :
    (bytes : List ℕ) × (write_binary_file stored ≡ some bytes)
    × (read_binary_file (λ n. true) bytes ≡ some stored)
read_binary_file-write_binary_file_example =
    read_binary_file-write_binary_file (λ n. true) stored (λ n. refl) (omega arith)
      (
        router-IsStorable 1 (2 ∷ 7 ∷ []) (omega arith) (omega arith),
        (router-IsStorable 7 (1 ∷ []) (omega arith) (omega arith), tt),
      )
      stored-Distinct

-- An empty model is neither written nor read.
write_router-empty :
    write_router (record { router_id = 1; flag = 0; producer_model = some []; neighbors = [] })
    ≡ none
unfolding write_router
write_router-empty = refl
