-- ===== src/BinaryFile/Records.antt =====
-- What is written of the routers is read back, without their neighbors.
use in_lib.Base.{
  ℕ, zero, suc, ◌+◌, ◌-◌, ◌%◌, ◌<◌, ◌≤◌, ◌≡◌, refl, ap, Bool, true, none, some, List, [], ◌∷◌, ◌++◌,
  map, arith, length, take-length, replicate, All,
}
use in_lib.Router.{Router, max_neighbors}
use in_lib.Router.Slots.{slots_of}
use in_lib.BinaryFile.{
  read_bytes, read_model, newline, read_router, read_routers, c_string, write_model, write_router,
  write_routers,
}
use mathlib.Core.List.{append_assoc}

-- A router that the file can hold: bytes, a model of 1 to 254 characters other than NUL, and at
-- most ten neighbors in the front slots.
pub record IsStorable (r : Router) : Type 0 where
  pub model : List ℕ
  pub neighbors : List ℕ
  pub has_model : r.producer_model ≡ some model
  pub text : All (λ c. 0 < c) model
  pub not_empty : 0 < length model
  pub short : length model < 255
  pub has_neighbors : r.neighbors ≡ slots_of neighbors (max_neighbors - length neighbors)
  pub few : length neighbors ≤ max_neighbors
  pub bytes : All (λ n. n < 256) neighbors

-- A router as it stands before the links are read.
abbrev pub blank : Router → Router
blank r = record r { neighbors = replicate max_neighbors none }

c_string_lem : (cs : List ℕ) → All (λ c. 0 < c) cs → c_string cs ≡ cs
c_string_lem [] h = refl
c_string_lem (zero ∷ cs) h = absurd (omega arith)
c_string_lem (suc c ∷ cs) h = ap (λ s. suc c ∷ s) (c_string_lem cs h.1)

read_bytes-append : (xs ys : List ℕ) → read_bytes (length xs) (xs ++ ys) ≡ some (xs, ys)
read_bytes-append [] ys = refl
read_bytes-append (x ∷ xs) ys = rw (read_bytes-append xs ys)

char_len_lem : (m : List ℕ) → length m < 255 → (length m + 1) % 256 ≡ suc (length m)
char_len_lem m h = omega arith

write_model_lem : (m : List ℕ) → 0 < length m → write_model (suc (length m)) m ≡ some m
write_model_lem [] h = absurd (omega arith)
write_model_lem (c ∷ cs) h = ap (λ s. some (c ∷ s)) (take-length cs)

read_model_lem :
    (m rest : List ℕ) → 0 < length m → read_model (suc (length m)) (m ++ rest) ≡ some (m, rest)
read_model_lem [] rest h = absurd (omega arith)
read_model_lem (c ∷ cs) rest h = rw (read_bytes-append cs rest)

write_router_lem :
    (r : Router) (h : IsStorable r)
    → write_router r ≡ some (r.router_id ∷ r.flag ∷ suc (length h.model) ∷ h.model)
unfolding write_router
write_router_lem r h =
    rw (h.has_model, c_string_lem h.model h.text)
      (rw (char_len_lem h.model h.short) (rw (write_model_lem h.model h.not_empty)))

module _ (malloc_ok : ℕ → Bool) (ok : (n : ℕ) → malloc_ok n ≡ true) where
  read_router_lem :
      (r : Router) (h : IsStorable r) (rest : List ℕ)
      → read_router malloc_ok (r.router_id ∷ r.flag ∷ suc (length h.model) ∷ (h.model ++ rest))
        ≡ some (blank r, rest)
  unfolding read_router
  read_router_lem r h rest =
      rw (ok (suc (length h.model))) (rw (read_model_lem h.model rest h.not_empty) (rw h.has_model))

  -- The bytes that are written of storable routers are read as these routers, without neighbors.
  pub read_routers-write_routers :
      (rs : List Router) (rest : List ℕ)
      → All IsStorable rs
      → (bytes : List ℕ) × (write_routers rs ≡ some bytes)
        × (read_routers malloc_ok (length rs) (bytes ++ rest) ≡ some (map blank rs, rest))
  unfolding write_routers read_routers
  read_routers-write_routers [] rest h = ([], refl, refl)
  read_routers-write_routers (r ∷ rs) rest (h, hs) =
      let (bytes, w, e) = read_routers-write_routers rs rest hs in
      let own = r.router_id ∷ r.flag ∷ suc (length h.model) ∷ h.model in
      (
        newline ∷ own ++ bytes,
        rw (write_router_lem r h, write_routers) (rw w),
        rw (append_assoc h.model bytes rest) (rw read_router_lem (rw e)),
      )
