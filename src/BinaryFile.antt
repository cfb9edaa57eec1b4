-- ===== src/BinaryFile.antt =====
-- obligatory_assignment/src/binary_file.c: the file of routers and links, read and written. A file
-- is the list of its bytes.
pub mod Records
pub mod Neighbors
pub mod RoundTrip
pub mod Compact
mod Tests
use in_lib.Base.{
  ℕ, zero, suc, ◌+◌, ◌-◌, ◌*◌, ◌/◌, ◌%◌, ◌^◌, Bool, true, false, Option, none, some, List, [], ◌∷◌,
  ◌++◌, Status, success, failure, ◌==◌, if◌then◌else◌, length, take, replicate, ◌>>=◌, ◌>>◌,
}
use in_lib.Base.Words.{write_u32}
use in_lib.Router.{Router, max_neighbors}
use in_lib.Router.Slots.{listed}
use in_lib.Router.Links.{add_link}

-- A read that delivers a value and the bytes that are left. `none` is EXIT_FAILURE.
abbrev pub Reads : Type 0 → Type 0
Reads A = Option (A × List ℕ)

abbrev pub read_byte : List ℕ → Reads ℕ
read_byte [] = none
read_byte (b ∷ bs) = some (b, bs)

-- `fread` of `n` bytes as one item.
abbrev pub read_bytes : ℕ → List ℕ → Reads (List ℕ)
read_bytes zero bs = some ([], bs)
read_bytes (suc n) [] = none
read_bytes (suc n) (b ∷ bs) = do (text, rest) ← read_bytes n bs; some (b ∷ text, rest)

abbrev pub newline : ℕ
newline = b'\n'

-- `readNewline`: the bytes behind the newline.
abbrev pub read_newline : List ℕ → Option (List ℕ)
read_newline bs = do (c, rest) ← read_byte bs; if c == newline then some rest else none

-- The bytes of the model, by the length byte, which counts the terminating NUL. An item of 0 bytes
-- is never read (`fread` returns 0), and for the length 0 the code asks for SIZE_MAX bytes.
abbrev pub read_model : ℕ → List ℕ → Reads (List ℕ)
read_model zero bs = none
read_model (suc zero) bs = none
read_model (suc (suc n)) bs = read_bytes (suc n) bs

-- `readRouter`. `malloc_ok n` says whether `malloc` delivers a block for `n` items.
unfoldable pub read_router : (ℕ → Bool) → List ℕ → Reads Router
read_router malloc_ok bs = do
  (id, bs1) ← read_byte bs
  (byte, bs2) ← read_byte bs1
  (char_len, bs3) ← read_byte bs2
  (model, rest) ← if malloc_ok char_len then read_model char_len bs3 else none
  some (
    record {
      router_id = id;
      flag = byte;
      producer_model = some model;
      neighbors = replicate max_neighbors none;
    },
    rest,
  )

-- The loop over the routers.
unfoldable pub read_routers : (ℕ → Bool) → ℕ → List ℕ → Reads (List Router)
unfolding read_router
read_routers malloc_ok zero bs = some ([], bs)
read_routers malloc_ok (suc n) bs = do
  bs1 ← read_newline bs
  (r, bs2) ← read_router malloc_ok bs1
  (rs, rest) ← read_routers malloc_ok n bs2
  some (r ∷ rs, rest)

abbrev pub linked : Status × List Router → Option (List Router)
linked (success, rs) = some rs
linked (failure, rs) = none

-- `readAndSetNeighbors`: end of file is met by the read behind a newline.
unfoldable pub read_and_set_neighbors : List ℕ → List Router → Option (List Router)
read_and_set_neighbors [] rs = none
read_and_set_neighbors (c ∷ []) rs = if c == newline then some rs else none
read_and_set_neighbors (c ∷ from_router ∷ []) rs = none
read_and_set_neighbors (c ∷ from_router ∷ to_router ∷ bs) rs =
    if c == newline
    then (linked (add_link rs from_router to_router) >>= (λ rs'. read_and_set_neighbors bs rs'))
    else none

-- A 4 byte `unsigned int`, in the byte order of the machine (least significant first).
abbrev pub read_u32 : List ℕ → Reads ℕ
read_u32 bs = do
  (a, bs1) ← read_byte bs
  (b, bs2) ← read_byte bs1
  (c, bs3) ← read_byte bs2
  (d, rest) ← read_byte bs3
  some (a + 256 * b + 65536 * c + 16777216 * d, rest)

unfoldable pub read_binary_file : (ℕ → Bool) → List ℕ → Option (List Router)
unfolding read_routers read_and_set_neighbors
read_binary_file malloc_ok bs = do
  (n, bs1) ← read_u32 bs
  (rs, rest) ← if malloc_ok n then read_routers malloc_ok n bs1 else none
  read_and_set_neighbors rest rs

-- `strlen` and the text that it measures.
abbrev pub c_string : List ℕ → List ℕ
c_string [] = []
c_string (zero ∷ cs) = []
c_string (suc c ∷ cs) = suc c ∷ c_string cs

-- The bytes that `fwrite` takes from the model, by the length byte. An item of 0 bytes is never
-- written (`fwrite` returns 0), and the length byte 0 stands for SIZE_MAX bytes.
abbrev pub write_model : ℕ → List ℕ → Option (List ℕ)
write_model zero text = none
write_model (suc zero) text = none
write_model (suc (suc n)) text = some (take (suc n) text)

-- `writeRouter`: the bytes that it appends. `none` is EXIT_FAILURE, and a NULL model.
unfoldable pub write_router : Router → Option (List ℕ)
write_router r = do
  model ← r.producer_model
  let char_len = (length (c_string model) + 1) % 256
  text ← write_model char_len (c_string model)
  some (r.router_id ∷ r.flag ∷ char_len ∷ text)

unfoldable pub write_routers : List Router → Option (List ℕ)
unfolding write_router
write_routers [] = some []
write_routers (r ∷ rs) = do
  bytes ← write_router r
  rest ← write_routers rs
  some (newline ∷ bytes ++ rest)

-- The inner loop of `writeNeighbors`; a slot's value goes to an `unsigned char`.
abbrev pub write_links : ℕ → List ℕ → List ℕ
write_links from_router [] = []
write_links from_router (n ∷ ns) = newline ∷ from_router ∷ n % 256 ∷ write_links from_router ns

unfoldable pub write_neighbors : List Router → List ℕ
write_neighbors [] = newline ∷ []
write_neighbors (r ∷ rs) = write_links r.router_id (listed r.neighbors) ++ write_neighbors rs

-- `writeBinaryFile`: the bytes of the file that it leaves, each `fwrite` of a byte succeeding.
unfoldable pub write_binary_file : List Router → Option (List ℕ)
unfolding write_routers write_neighbors
write_binary_file rs = do
  routers ← write_routers rs
  some (write_u32 (length rs) ++ (routers ++ write_neighbors rs))
