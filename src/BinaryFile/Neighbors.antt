-- ===== src/BinaryFile/Neighbors.antt =====
-- What is written of the neighbors is read back, link by link.
use in_lib.Base.{
  ℕ, suc, ◌+◌, ◌-◌, ◌%◌, ◌<◌, ◌≡◌, ◌≢◌, refl, ap, sym, ◌∙◌, some, List, [], ◌∷◌, ◌++◌, map, arith,
  length, get_or, set, All, success,
}
use in_lib.Base.Int.{pos}
use in_lib.Router.{Router, Slot, max_neighbors, find_router_id, no_router}
use in_lib.Router.Slots.{slots_of, listed, listed-slots_of}
use in_lib.Router.Links.{add_link, link_at_free}
use in_lib.BinaryFile.{read_and_set_neighbors, write_links, write_neighbors}
use in_lib.BinaryFile.Records.{IsStorable, blank}
use mathlib.Core.List.{append_assoc, append-nil}

-- No router of the list has the id.
abbrev pub NoId : ℕ → List Router → Type 0
NoId id rs = All (λ r. r.router_id ≢ id) rs

find_router_id-append :
    (before : List Router) (r : Router) (after : List Router)
    → NoId r.router_id before
    → find_router_id (before ++ r ∷ after) (pos r.router_id) ≡ some (length before)
unfolding find_router_id
find_router_id-append [] r after h = ground arith
find_router_id-append (q ∷ before) r after (ne, h) =
    ground (arith, find_router_id-append before r after h)

get_or-append {ℓ} :
    {A : Type ℓ} (xs : List A) (y : A) (ys : List A) (d : A)
    → get_or (xs ++ y ∷ ys) (length xs) d ≡ y
get_or-append [] y ys d = refl
get_or-append (x ∷ xs) y ys d = get_or-append xs y ys d

set-append {ℓ} :
    {A : Type ℓ} (xs : List A) (y z : A) (ys : List A)
    → set (xs ++ y ∷ ys) (length xs) z ≡ xs ++ z ∷ ys
set-append [] y z ys = refl
set-append (x ∷ xs) y z ys = ap (λ s. x ∷ s) (set-append xs y z ys)

-- A router with other neighbors.
abbrev with_neighbors : Router → List Slot → Router
with_neighbors r s = record r { neighbors = s }

module _ (before : List Router) (r : Router) (after : List Router)
    (fresh : NoId r.router_id before) where
  abbrev network : List Slot → List Router
  network s = before ++ with_neighbors r s ∷ after

  add_link-network :
      (xs : List ℕ) (k n : ℕ)
      → add_link (network (slots_of xs (suc k))) r.router_id n
        ≡ (success, network (slots_of (xs ++ n ∷ []) k))
  unfolding add_link
  add_link-network xs k n =
      let here = with_neighbors r (slots_of xs (suc k)) in
      let at = get_or-append before here after no_router in
      rw (find_router_id-append before here after fresh, add_link)
        (link_at_free (network (slots_of xs (suc k))) (length before) n xs k (rw at refl)
          ∙ ap (λ rs. (success, rs)) (rw at (set-append before here _ after)))

  -- Reading the links of one router sets its neighbors, one after the other.
  read_links :
      (ns xs : List ℕ) (k : ℕ) (rest : List ℕ)
      → All (λ n. n < 256) ns
      → read_and_set_neighbors
          (write_links r.router_id ns ++ rest)
          (network (slots_of xs (length ns + k)))
        ≡ read_and_set_neighbors rest (network (slots_of (xs ++ ns) k))
  unfolding read_and_set_neighbors
  read_links [] xs k rest h = let e : 0 + k ≡ k = omega arith in rw (append-nil xs, e)
  read_links (n ∷ ns) xs k rest (lt, h) =
      let e : suc (length ns) + k ≡ suc (length ns + k) = omega arith in
      let same : n % 256 ≡ n = omega arith in
      rw (e, same)
        (rw (add_link-network xs (length ns + k) n) (
          read_links ns (xs ++ n ∷ []) k rest h
          ∙ ap (λ ys. read_and_set_neighbors rest (network (slots_of ys k)))
              (append_assoc xs (n ∷ []) ns)))

-- All ids are different.
abbrev pub Distinct : List Router → Type 0
Distinct [] = Unit
Distinct (r ∷ rs) = NoId r.router_id rs × Distinct rs

NoId-concat :
    (id : ℕ) (before : List Router) (r : Router)
    → NoId id before
    → r.router_id ≢ id
    → NoId id (before ++ r ∷ [])
NoId-concat id [] r h ne = (ne, tt)
NoId-concat id (q ∷ before) r (n, h) ne = (n, NoId-concat id before r h ne)

-- No router of the first list has the id of one of the second.
abbrev Apart : List Router → List Router → Type 0
Apart before after = All (λ r. NoId r.router_id before) after

Apart-concat :
    (before after : List Router) (r : Router)
    → Apart before after
    → NoId r.router_id after
    → Apart (before ++ r ∷ []) after
Apart-concat before [] r h n = tt
Apart-concat before (q ∷ after) r (h, hs) (n, ns) =
    (NoId-concat q.router_id before r h (λ e. n (sym e)), Apart-concat before after r hs ns)

read_neighbors-write_neighbors_from :
    (before after : List Router)
    → All IsStorable after
    → Apart before after
    → Distinct after
    → read_and_set_neighbors (write_neighbors after) (before ++ map blank after)
      ≡ some (before ++ after)
unfolding read_and_set_neighbors write_neighbors
read_neighbors-write_neighbors_from before [] h apart distinct = refl
read_neighbors-write_neighbors_from before (r ∷ after) (h, hs) (fresh, apart) (first, distinct) =
    let xs = h.neighbors in
    let k = max_neighbors - length xs in
    let e : length xs + k ≡ max_neighbors = omega (arith, h.few) in
    let links = ap listed h.has_neighbors ∙ listed-slots_of xs k in
    let own = write_links r.router_id in
    let wn = write_neighbors after in
    let start = before ++ blank r ∷ map blank after in
    ap (λ ys. read_and_set_neighbors (own ys ++ wn) start) links
    ∙ ap
        (λ m.
          read_and_set_neighbors (own xs ++ wn)
            (before ++ with_neighbors r (slots_of [] m) ∷ map blank after))
        (sym e)
    ∙ read_links before r (map blank after) fresh xs [] k wn h.bytes
    ∙ ap (λ s. read_and_set_neighbors wn (before ++ with_neighbors r s ∷ map blank after))
        (sym h.has_neighbors)
    ∙ ap (read_and_set_neighbors wn) (sym (append_assoc before (r ∷ []) (map blank after)))
    ∙ read_neighbors-write_neighbors_from (before ++ r ∷ []) after hs
        (Apart-concat before after r apart first) distinct
    ∙ ap (λ rs. some rs) (append_assoc before (r ∷ []) after)

-- The bytes that are written of the neighbors are read as these neighbors.
pub read_and_set_neighbors-write_neighbors :
    (rs : List Router)
    → All IsStorable rs
    → Distinct rs
    → read_and_set_neighbors (write_neighbors rs) (map blank rs) ≡ some rs
read_and_set_neighbors-write_neighbors rs h d =
    read_neighbors-write_neighbors_from [] rs h (all_apart rs) d
  where
    all_apart : (qs : List Router) → Apart [] qs
    all_apart [] = tt
    all_apart (q ∷ qs) = (tt, all_apart qs)
