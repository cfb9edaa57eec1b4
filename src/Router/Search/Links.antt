-- ===== src/Router/Search/Links.antt =====
-- The links between routers and the routes along them.
use in_lib.Base.{
  ℕ, zero, suc, ◌<◌, ◌+◌, ◌≡◌, ◌≤◌, refl, ap, not, ◌||◌, one_if, Listed, Bool-cases, Option-cases,
  Bool, true, false, none, some, List, [], ◌∷◌, inl, inr, arith, length, set, replicate, ◌==◌,
}
use in_lib.Base.Int.{pos}
use in_lib.Router.{Router, Slot, router_at, find_router_id}
use in_lib.Router.Slots.{listed}
use in_lib.Router.Search.{Scan, seen, full, free, later, scan_visited}

-- The router that the id finds lists the other id as a neighbor.
abbrev pub Link : List Router → ℕ → ℕ → Type 0
Link rs a b =
    (i : ℕ) × (find_router_id rs (pos a) ≡ some i) × Listed b (listed (router_at rs i).neighbors)

pub data Route (rs : List Router) (a : ℕ) : ℕ → Type 0 where
  here : Route rs a a
  hop : {b c : ℕ} → Route rs a b → Link rs b c → Route rs a c

pub Route-cons : (rs : List Router) {a b c : ℕ} → Link rs a b → Route rs b c → Route rs a c
Route-cons rs l here = hop here l
Route-cons rs l (hop r m) = hop (Route-cons rs l r) m

-- An id is in the array of visited ids.
abbrev pub is_visited : ℕ → List Slot → Bool
is_visited a [] = false
is_visited a (none ∷ v) = is_visited a v
is_visited a (some x ∷ v) = (x == a) || is_visited a v

-- The free slots.
abbrev pub vacant : List Slot → ℕ
vacant [] = 0
vacant (none ∷ v) = suc (vacant v)
vacant (some x ∷ v) = vacant v

-- No id stands behind a free slot.
abbrev pub IsFront : List Slot → Type 0
IsFront [] = Unit
IsFront (none ∷ v) = (a : ℕ) → is_visited a v ≡ false
IsFront (some x ∷ v) = IsFront v

-- The routers whose id is not visited.
abbrev pub unvisited : List Router → List Slot → ℕ
unvisited [] v = 0
unvisited (r ∷ rs) v = one_if (not (is_visited r.router_id v)) + unvisited rs v

pub vacant-replicate : (n : ℕ) → vacant (replicate n none) ≡ n
vacant-replicate zero = refl
vacant-replicate (suc n) = ap suc (vacant-replicate n)

pub is_visited-replicate : (a n : ℕ) → is_visited a (replicate n none) ≡ false
is_visited-replicate a zero = refl
is_visited-replicate a (suc n) = is_visited-replicate a n

pub IsFront-replicate : (n : ℕ) → IsFront (replicate n none)
IsFront-replicate zero = tt
IsFront-replicate (suc n) = λ a. is_visited-replicate a n

IsFront-of_none : (v : List Slot) → ((a : ℕ) → is_visited a v ≡ false) → IsFront v
IsFront-of_none [] h = tt
IsFront-of_none (none ∷ v) h = h
IsFront-of_none (some x ∷ v) h = IsFront-of_none v (λ a. ground (arith, h a))

pub unvisited-le : (rs : List Router) (v : List Slot) → unvisited rs v ≤ length rs
unvisited-le [] v = omega arith
unvisited-le (r ∷ rs) v = ground (arith, unvisited-le rs v)

-- What the scan says of the array.
pub scan_visited-seen : (id : ℕ) (v : List Slot) → scan_visited id v ≡ seen → is_visited id v ≡ true
unfolding scan_visited
scan_visited-seen id [] h = cc
scan_visited-seen id (none ∷ v) h = cc
scan_visited-seen id (some x ∷ v) h = ground (arith, scan_visited-seen id v)

pub scan_visited-full :
    (id : ℕ) (v : List Slot) → scan_visited id v ≡ full → (vacant v ≡ 0) × (is_visited id v ≡ false)
unfolding scan_visited
scan_visited-full id [] h = (refl, refl)
scan_visited-full id (none ∷ v) h = cc
scan_visited-full id (some x ∷ v) h = ground (arith, scan_visited-full id v)

-- Writing the id to the slot that the scan delivers.
pub record Marks (id : ℕ) (v v' : List Slot) : Type 0 where
  pub fewer : suc (vacant v') ≡ vacant v
  pub marked : (a : ℕ) → is_visited a v' ≡ (id == a) || is_visited a v

-- Behind a used slot the scan goes on: what it found, it found in the rest.
scan_visited-tail :
    (id x i : ℕ) (v : List Slot)
    → scan_visited id (some x ∷ v) ≡ free i
    → (j : ℕ) × (i ≡ suc j) × (scan_visited id v ≡ free j) × ((x == id) ≡ false)
unfolding scan_visited
scan_visited-tail id x i v h = elim (Bool-cases (x == id)) [
  | inl met ↦ absurd (seen-ne-free i (rw met at h))
  | inr new ↦ later-free (scan_visited id v) i new (rw new at h)
]
  where
    seen-ne-free : (k : ℕ) → seen ≡ free k → ⊥
    seen-ne-free k e = cc

    later-free :
        (s : Scan) (k : ℕ)
        → (x == id) ≡ false
        → later s ≡ free k
        → (j : ℕ) × (k ≡ suc j) × (s ≡ free j) × ((x == id) ≡ false)
    later-free seen k n e = cc
    later-free full k n e = cc
    later-free (free j) k n e = (j, ground arith, refl, n)

pub Marks-set :
    (id i : ℕ) (v : List Slot) → scan_visited id v ≡ free i → Marks id v (set v i (some id))
unfolding scan_visited
Marks-set id i [] h = cc
Marks-set id zero (none ∷ v) h = record { fewer = refl; marked = λ a. refl }
Marks-set id (suc i) (none ∷ v) h = cc
Marks-set id i (some x ∷ v) h =
    let (j, e, t, ne) = scan_visited-tail id x i v h in
    let m = Marks-set id j v t in
    rw e (record { fewer = m.fewer; marked = λ a. ground (arith, m.marked a) })

pub IsFront-set :
    (id i : ℕ) (v : List Slot)
    → scan_visited id v ≡ free i
    → IsFront v
    → IsFront (set v i (some id)) × (is_visited id v ≡ false)
unfolding scan_visited
IsFront-set id i [] h f = cc
IsFront-set id zero (none ∷ v) h f = (IsFront-of_none v f, f id)
IsFront-set id (suc i) (none ∷ v) h f = cc
IsFront-set id i (some x ∷ v) h f =
    let (j, e, t, ne) = scan_visited-tail id x i v h in
    let rest = IsFront-set id j v t f in rw e (rest.0, rw ne rest.1)

-- Marking one id more leaves no more routers unvisited, and fewer if a router has the id.
pub unvisited-Marks :
    (rs : List Router) (id : ℕ) (v v' : List Slot)
    → Marks id v v'
    → unvisited rs v' ≤ unvisited rs v
unvisited-Marks [] id v v' m = omega arith
unvisited-Marks (r ∷ rs) id v v' m =
    ground (arith, m.marked r.router_id, unvisited-Marks rs id v v' m)

pub unvisited-pos :
    (rs : List Router) (id i : ℕ) (v : List Slot)
    → find_router_id rs (pos id) ≡ some i
    → is_visited id v ≡ false
    → 0 < unvisited rs v
unfolding find_router_id
unvisited-pos [] id i v h f = cc
unvisited-pos (r ∷ rs) id i v h f = elim (Option-cases (find_router_id rs (pos id))) [
  | inl missing ↦ ground arith
  | inr (j, e) ↦ ground (arith, unvisited-pos rs id j v)
]

pub unvisited-Marks_found :
    (rs : List Router) (id i : ℕ) (v v' : List Slot)
    → find_router_id rs (pos id) ≡ some i
    → is_visited id v ≡ false
    → Marks id v v'
    → unvisited rs v' < unvisited rs v
unfolding find_router_id
unvisited-Marks_found [] id i v v' h f m = cc
unvisited-Marks_found (r ∷ rs) id i v v' h f m = elim (Option-cases (find_router_id rs (pos id))) [
  | inl missing ↦ ground (arith, m.marked r.router_id, unvisited-Marks rs id v v' m)
  | inr (j, e) ↦ ground (
    arith,
    m.marked r.router_id,
    unvisited-Marks rs id v v' m,
    unvisited-Marks_found rs id j v v' e f m,
  )
]
