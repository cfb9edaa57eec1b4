-- ===== src/Router/Search/Correct.antt =====
-- What the search answers: it finds a route exactly where there is one.
use in_lib.Base.{
  if_true, if_false, ℕ, zero, suc, ◌≡◌, ◌≢◌, ◌↔◌, refl, subst, ◌∙◌, Bool, true, false, ◌||◌, none,
  some, List, [], ◌∷◌, ◌⊎◌, inl, inr, arith, success, failure, length, set, ◌==◌, if◌then◌else◌,
  Bool-cases, Option-cases, Listed,
}
use in_lib.Base.Int.{pos}
use in_lib.Router.{Router, Slot, router_at, find_router_id}
use in_lib.Router.Slots.{listed}
use in_lib.Router.Search.{
  State, Scan, seen, full, free, scan_visited, Outcome, for_neighbors, expand, dfs, after_scan,
  exists_route,
}
use in_lib.Router.Search.Links.{
  Link, Route, here, hop, Route-cons, is_visited, scan_visited-seen, Marks-set,
  is_visited-replicate,
}
use in_lib.Router.Search.Run.{Known, AllKnown, start, exists_route_answers}

-- A result determines its state.
same_state : (s s' : State) → ◌≡◌ {A = Outcome} (some (success, s)) (some (success, s')) → s ≡ s'
same_state s s' h = cc

failed : (s s' : State) → ◌≡◌ {A = Outcome} (some (failure, s)) (some (success, s')) → ⊥
failed s s' h = cc

ne_of : {b : Bool} → b ≡ false → b ≡ true → ⊥
ne_of p q = cc

module _ (rs : List Router) (to_id : ℕ) where
  -- What a call that began in `s` has done by `s'`, if it found nothing.
  record Explored (s s' : State) : Type 0 where
    kept : (a : ℕ) → is_visited a s.visited ≡ true → is_visited a s'.visited ≡ true
    closed :
        (x : ℕ)
        → is_visited x s'.visited ≡ true
        → (is_visited x s.visited ≡ true)
          ⊎ (x ≢ to_id) × ((y : ℕ) → Link rs x y → is_visited y s'.visited ≡ true)

  Explored-refl : (s : State) → Explored s s
  Explored-refl s = record { kept = λ a h. h; closed = λ x h. inl h }

  Explored-trans : {s t u : State} → Explored s t → Explored t u → Explored s u
  Explored-trans {s} {t} {u} p q = record {
    kept = λ a h. q.kept a (p.kept a h);
    closed = λ x h. elim (q.closed x h) [
      | inl old ↦ elim (p.closed x old) [
        | inl older ↦ inl older
        | inr (ne, links) ↦ inr (ne, λ y l. q.kept y (links y l))
      ]
      | inr new ↦ inr new
    ];
  }

  -- The two promises of a call: what it finds is reached, and what it does not find it has explored.
  abbrev Sound : (ℕ → State → Outcome) → Type 0
  Sound call =
      (n : ℕ) (s s' : State)
      → call n s ≡ some (success, s')
      → s'.found ≡ true
      → (s.found ≡ true) ⊎ Route rs n to_id

  abbrev Complete : (ℕ → State → Outcome) → Type 0
  Complete call =
      (n : ℕ) (s s' : State)
      → call n s ≡ some (success, s')
      → s'.found ≡ false
      → Explored s s' × (is_visited n s'.visited ≡ true)

  -- One round of the loop over the neighbors that goes on.
  for_neighbors-cons :
      (call : ℕ → State → Outcome) (n : ℕ) (ns : List Slot) (s s' : State)
      → for_neighbors call (some n ∷ ns) s ≡ some (success, s')
      → (t : State) × (call n s ≡ some (success, t))
        × ((t.found ≡ true) × (t ≡ s')
            ⊎ (t.found ≡ false) × (for_neighbors call ns t ≡ some (success, s')))
  unfolding for_neighbors
  for_neighbors-cons call n ns s s' h = go (call n s) refl h
    where
      go :
          (r : Outcome)
          → call n s ≡ r
          → elim r [
            | none ↦ none
            | some (failure, t) ↦ some (failure, t)
            | some (success, t) ↦ if t.found then some (success, t) else for_neighbors call ns t
          ]
            ≡ some (success, s')
          → (t : State) × (call n s ≡ some (success, t))
            × ((t.found ≡ true) × (t ≡ s')
                ⊎ (t.found ≡ false) × (for_neighbors call ns t ≡ some (success, s')))
      go none e k = cc
      go (some (failure, t)) e k = cc
      go (some (success, t)) e k = elim (Bool-cases t.found) [
        | inl stop ↦ (t, e, inl (stop, same_state t s' (rw (if_true t.found _ _ stop) at k)))
        | inr on ↦ (t, e, inr (on, rw (if_false t.found _ _ on) at k))
      ]

  for_neighbors-Sound :
      (call : ℕ → State → Outcome) (ns : List Slot) (s s' : State)
      → Sound call
      → for_neighbors call ns s ≡ some (success, s')
      → s'.found ≡ true
      → (s.found ≡ true) ⊎ (b : ℕ) × Listed b (listed ns) × Route rs b to_id
  unfolding for_neighbors
  for_neighbors-Sound call [] s s' sound h f = inl (rw (same_state s s' h) f)
  for_neighbors-Sound call (none ∷ ns) s s' sound h f = inl (rw (same_state s s' h) f)
  for_neighbors-Sound call (some n ∷ ns) s s' sound h f =
      let (t, e, next) = for_neighbors-cons call n ns s s' h in
      elim next [
        | inl (stop, same) ↦ elim (sound n s t e stop) [
          | inl before ↦ inl before
          | inr route ↦ inr (n, inl refl, route)
        ]
        | inr (on, rest) ↦ elim (for_neighbors-Sound call ns t s' sound rest f) [
          | inl contra ↦ absurd (ne_of on contra)
          | inr (b, l, route) ↦ inr (b, inr l, route)
        ]
      ]

  for_neighbors-Complete :
      (call : ℕ → State → Outcome) (ns : List Slot) (s s' : State)
      → Complete call
      → for_neighbors call ns s ≡ some (success, s')
      → s'.found ≡ false
      → Explored s s' × ((b : ℕ) → Listed b (listed ns) → is_visited b s'.visited ≡ true)
  unfolding for_neighbors
  for_neighbors-Complete call [] s s' complete h f =
      (subst (Explored s) (same_state s s' h) (Explored-refl s), λ b l. absurd l)
  for_neighbors-Complete call (none ∷ ns) s s' complete h f =
      (subst (Explored s) (same_state s s' h) (Explored-refl s), λ b l. absurd l)
  for_neighbors-Complete call (some n ∷ ns) s s' complete h f =
      let (t, e, next) = for_neighbors-cons call n ns s s' h in
      elim next [
        | inl (stop, same) ↦ absurd (ne_of (rw same f) stop)
        | inr (on, rest) ↦
            let (first, marked) = complete n s t e on in
            let (others, all) = for_neighbors-Complete call ns t s' complete rest f in
            (
              Explored-trans first others,
              λ b l. elim l [
                | inl same ↦ rw (← same) (others.kept n marked)
                | inr later ↦ all b later
              ],
            )
      ]

  expand-Sound :
      (call : ℕ → State → Outcome) (from_id i : ℕ) (s s' : State)
      → Sound call
      → expand rs call from_id i s ≡ some (success, s')
      → s'.found ≡ true
      → (s.found ≡ true) ⊎ Route rs from_id to_id
  unfolding expand
  expand-Sound call from_id i s s' sound h f =
      elim (Option-cases (find_router_id rs (pos from_id))) [
        | inl missing ↦ absurd (failed _ s' (rw (missing, expand) at h))
        | inr (hit, found) ↦
            elim (for_neighbors-Sound call (router_at rs hit).neighbors
              (record s { visited = set s.visited i (some from_id) }) s' sound
              (rw (found, expand) at h) f) [
                | inl before ↦ inl before
                | inr (b, l, route) ↦ inr (Route-cons rs (hit, found, l) route)
              ]
      ]

  expand-Complete :
      (call : ℕ → State → Outcome) (from_id i : ℕ) (s s' : State)
      → from_id ≢ to_id
      → scan_visited from_id s.visited ≡ free i
      → Complete call
      → expand rs call from_id i s ≡ some (success, s')
      → s'.found ≡ false
      → Explored s s' × (is_visited from_id s'.visited ≡ true)
  unfolding expand
  expand-Complete call from_id i s s' ne at complete h f =
      elim (Option-cases (find_router_id rs (pos from_id))) [
        | inl missing ↦ absurd (failed _ s' (rw (missing, expand) at h))
        | inr (hit, found) ↦
            let s1 = record s { visited = set s.visited i (some from_id) } in
            let m = Marks-set from_id i s.visited at in
            let (ex, all) =
              for_neighbors-Complete call (router_at rs hit).neighbors s1 s' complete
                (rw (found, expand) at h) f in
            (
              record {
                kept = λ a v. ex.kept a (marked_before s.visited s1.visited a (m.marked a) v);
                closed = λ x v. elim (ex.closed x v) [
                  | inl old ↦ elim (Bool-cases (from_id == x)) [
                    | inl own ↦
                        let same : from_id ≡ x = ground arith in
                        inr (λ e. ne (same ∙ e), λ y l. all y (own_link hit found x y same l))
                    | inr other ↦ inl (ground (arith, m.marked x))
                  ]
                  | inr new ↦ inr new
                ];
              },
              ex.kept from_id (marked_own s.visited s1.visited (m.marked from_id)),
            )
      ]
    where
      marked_before :
          (v v' : List Slot) (a : ℕ)
          → is_visited a v' ≡ (from_id == a) || is_visited a v
          → is_visited a v ≡ true
          → is_visited a v' ≡ true
      marked_before v v' a e h' = ground arith

      marked_own :
          (v v' : List Slot)
          → is_visited from_id v' ≡ (from_id == from_id) || is_visited from_id v
          → is_visited from_id v' ≡ true
      marked_own v v' e = ground arith

      own_link :
          (hit : ℕ)
          → find_router_id rs (pos from_id) ≡ some hit
          → (x y : ℕ) → from_id ≡ x
          → Link rs x y
          → Listed y (listed (router_at rs hit).neighbors)
      own_link hit found x y same (j, found', l) =
          let e : j ≡ hit = ground arith in
          subst (λ k. Listed y (listed (router_at rs k).neighbors)) e l

  dfs-Sound : (fuel : ℕ) → Sound (dfs fuel rs to_id)
  unfolding dfs
  dfs-Sound zero n s s' h f = cc
  dfs-Sound (suc fuel) n s s' h f = elim (Bool-cases (s.found || (n == to_id))) [
    | inl stop ↦ elim (Bool-cases s.found) [
      | inl before ↦ inl before
      | inr new ↦ let same : n ≡ to_id = ground arith in inr (subst (Route rs n) same here)
    ]
    | inr on ↦ go (scan_visited n s.visited) (dfs-Sound fuel) (rw (if_false _ _ _ on) at h)
  ]
    where
      go :
          (k : Scan)
          → Sound (dfs fuel rs to_id)
          → after_scan (expand rs (dfs fuel rs to_id) n) s k ≡ some (success, s')
          → (s.found ≡ true) ⊎ Route rs n to_id
      go seen deeper e = inl (rw (same_state s s' e) f)
      go full deeper e = absurd (failed s s' e)
      go (free i) deeper e = expand-Sound (dfs fuel rs to_id) n i s s' deeper e f

  dfs-Complete : (fuel : ℕ) → Complete (dfs fuel rs to_id)
  unfolding dfs
  dfs-Complete zero n s s' h f = cc
  dfs-Complete (suc fuel) n s s' h f = elim (Bool-cases (s.found || (n == to_id))) [
    | inl stop ↦
        let end = same_state (record s { found = true }) s' (rw (if_true _ _ _ stop) at h) in
        absurd (ne_of f (rw (← end) refl))
    | inr on ↦
        go (scan_visited n s.visited) refl (ground arith) (dfs-Complete fuel)
          (rw (if_false _ _ _ on) at h)
  ]
    where
      go :
          (k : Scan)
          → scan_visited n s.visited ≡ k
          → n ≢ to_id
          → Complete (dfs fuel rs to_id)
          → after_scan (expand rs (dfs fuel rs to_id) n) s k ≡ some (success, s')
          → Explored s s' × (is_visited n s'.visited ≡ true)
      go seen at ne deeper e =
          let same = same_state s s' e in
          (
            subst (Explored s) same (Explored-refl s),
            rw (← same) (scan_visited-seen n s.visited at),
          )
      go full at ne deeper e = absurd (failed s s' e)
      go (free i) at ne deeper e = expand-Complete (dfs fuel rs to_id) n i s s' ne at deeper e f

  -- What the search has visited when it found nothing is closed under the links.
  Route-visited :
      (s : State) (a : ℕ) {b : ℕ}
      → Explored (start rs) s
      → is_visited a s.visited ≡ true
      → Route rs a b
      → is_visited b s.visited ≡ true
  Route-visited s a ex v here = v
  Route-visited s a ex v (hop {b} {c} r l) = elim (ex.closed b (Route-visited s a ex v r)) [
    | inl before ↦ absurd (ne_of (is_visited-replicate b (length rs)) before)
    | inr (ne, links) ↦ links c l
  ]

-- The target is not among the ids that an unsuccessful search has visited.
unmarked :
    (rs : List Router) (to_id : ℕ) (s : State)
    → Explored rs to_id (start rs) s
    → is_visited to_id s.visited ≡ true
    → ⊥
unmarked rs to_id s ex v = elim (ex.closed to_id v) [
  | inl before ↦ ne_of (is_visited-replicate to_id (length rs)) before
  | inr (ne, links) ↦ ne refl
]

-- On a network whose links all lead to routers, the search from a router ends with an answer, and
-- the answer is "exists" if and only if a route leads along the links from the one to the other.
pub exists_route_decides :
    (rs : List Router) (from_id to_id : ℕ)
    → AllKnown rs
    → Known rs from_id
    → (b : Bool) × (exists_route true rs from_id to_id ≡ some (some b))
      × ((b ≡ true) ↔ Route rs from_id to_id)
exists_route_decides rs from_id to_id links known =
    let (s, e, ends) = exists_route_answers rs from_id to_id links known in
    (
      s.found,
      ends,
      (
        λ f. elim (dfs-Sound rs to_id (suc (length rs)) from_id (start rs) s e f) [
          | inl before ↦ absurd (ne_of refl before)
          | inr route ↦ route
        ],
        λ route. elim (Bool-cases s.found) [
          | inl yes' ↦ yes'
          | inr not_found ↦
              let (ex, marked) =
                dfs-Complete rs to_id (suc (length rs)) from_id (start rs) s e not_found in
              absurd (unmarked rs to_id s ex (Route-visited rs to_id s from_id ex marked route))
        ],
      ),
    )
