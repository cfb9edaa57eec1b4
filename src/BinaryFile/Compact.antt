-- ===== src/BinaryFile/Compact.antt =====
-- `readBinaryFile`: the slots of the routers that are read.
use in_lib.Base.{
  ℕ, zero, suc, ◌≡◌, refl, subst, Bool, none, some, List, [], ◌∷◌, ◌==◌, if◌then◌else◌, some_inj,
  bind-eq-some, if_some, Bool-cases, inl, inr, Status, success, failure,
}
use in_lib.Router.{Router}
use in_lib.Router.Slots.{IsCompact}
use in_lib.Router.Links.{AllCompact, add_link, add_link-AllCompact}
use in_lib.BinaryFile.{
  read_byte, read_newline, read_model, read_router, read_routers, read_u32, newline, linked,
  read_and_set_neighbors, read_binary_file,
}

read_router-IsCompact :
    (malloc_ok : ℕ → Bool) (bs : List ℕ) (r : Router) (rest : List ℕ)
    → read_router malloc_ok bs ≡ some (r, rest)
    → IsCompact r.neighbors
unfolding read_router
read_router-IsCompact malloc_ok bs r rest h =
    let (id, read1, h1) = bind-eq-some (read_byte bs) _ (r, rest) h in
    let (byte, read2, h2) = bind-eq-some (read_byte id.1) _ (r, rest) h1 in
    let (char_len, read3, h3) = bind-eq-some (read_byte byte.1) _ (r, rest) h2 in
    let (model, read4, h4) =
      bind-eq-some (if malloc_ok char_len.0 then read_model char_len.0 char_len.1 else none) _
        (r, rest) h3 in
    subst (λ (x : Router × List ℕ). IsCompact x.0.neighbors) (some_inj h4) ([], 10, refl, refl)

read_routers-AllCompact :
    (malloc_ok : ℕ → Bool) (n : ℕ) (bs : List ℕ) (rs : List Router) (rest : List ℕ)
    → read_routers malloc_ok n bs ≡ some (rs, rest)
    → AllCompact rs
unfolding read_routers
read_routers-AllCompact malloc_ok zero bs rs rest h =
    subst (λ (x : List Router × List ℕ). AllCompact x.0) (some_inj h) tt
read_routers-AllCompact malloc_ok (suc n) bs rs rest h =
    let (bs1, read1, h1) = bind-eq-some (read_newline bs) _ (rs, rest) h in
    let (first, read2, h2) = bind-eq-some (read_router malloc_ok bs1) _ (rs, rest) h1 in
    let (more, read3, h3) = bind-eq-some (read_routers malloc_ok n first.1) _ (rs, rest) h2 in
    subst (λ (x : List Router × List ℕ). AllCompact x.0) (some_inj h3)
      (
        read_router-IsCompact malloc_ok bs1 first.0 first.1 read2,
        read_routers-AllCompact malloc_ok n first.1 more.0 more.1 read3,
      )

linked-eq-some : (p : Status × List Router) (rs : List Router) → linked p ≡ some rs → p.1 ≡ rs
linked-eq-some (success, a) rs h = some_inj h
linked-eq-some (failure, a) rs h = cc

read_and_set_neighbors-AllCompact :
    (bs : List ℕ) (rs after : List Router)
    → AllCompact rs
    → read_and_set_neighbors bs rs ≡ some after
    → AllCompact after
unfolding read_and_set_neighbors
read_and_set_neighbors-AllCompact [] rs after c h = cc
read_and_set_neighbors-AllCompact (nl ∷ []) rs after c h = elim (Bool-cases (nl == newline)) [
  | inl end ↦ subst AllCompact (some_inj (rw end at h)) c
  | inr other ↦ absurd (let clash = rw other at h in cc)
]
read_and_set_neighbors-AllCompact (nl ∷ a ∷ []) rs after c h = cc
read_and_set_neighbors-AllCompact (nl ∷ a ∷ b ∷ bs) rs after c h =
    elim (Bool-cases (nl == newline)) [
      | inl end ↦
          let (rs1, did, more) =
            bind-eq-some (linked (add_link rs a b)) (λ rs'. read_and_set_neighbors bs rs') after
              (rw end at h) in
          read_and_set_neighbors-AllCompact bs rs1 after
            (subst AllCompact (linked-eq-some (add_link rs a b) rs1 did)
              (add_link-AllCompact rs a b c))
            more
      | inr other ↦ absurd (let clash = rw other at h in cc)
    ]

-- The routers that are read from a file have compact slots.
pub read_binary_file-AllCompact :
    (malloc_ok : ℕ → Bool) (bs : List ℕ) (rs : List Router)
    → read_binary_file malloc_ok bs ≡ some rs
    → AllCompact rs
unfolding read_binary_file
read_binary_file-AllCompact malloc_ok bs rs h =
    let (n, read1, h1) = bind-eq-some (read_u32 bs) _ rs h in
    let (routers, read2, h2) =
      bind-eq-some (if malloc_ok n.0 then read_routers malloc_ok n.0 n.1 else none) _ rs h1 in
    read_and_set_neighbors-AllCompact routers.1 routers.0 rs
      (read_routers-AllCompact malloc_ok n.0 n.1 routers.0 routers.1
        (if_some (malloc_ok n.0) (read_routers malloc_ok n.0 n.1) routers read2))
      h2
