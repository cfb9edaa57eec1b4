-- ===== src/RoutingServer/Dijkstra/Round.antt =====
-- One round of the main loop of `dijkstra` keeps the invariant.
use in_lib.Base.{
  ℕ, zero, suc, ◌+◌, ◌<◌, ◌≤◌, ◌≡◌, ◌≢◌, refl, ap, sym, ◌∙◌, subst, Bool, true, false, not, ◌&&◌,
  List, [], ◌∷◌, arith, ◌==◌, if◌then◌else◌, length, get_or, set, Bool-cases, inl, inr, ◌⊎◌,
  get_or-set, length-set,
}
use in_lib.RoutingServer.Dijkstra.{
  int_max, Matrix, Route, row, weight, State, register_route, relax, round, get_min_distance_idx,
  update, sums_fit,
}
use in_lib.Base.Outcomes.{
  done, done_inj, bind-eq-done, if_defined, some_or_failed, some_or_failed-eq-done,
}
use in_lib.RoutingServer.Dijkstra.MinDistance.{open_at, get_min_distance_idx-least}
use in_lib.RoutingServer.Dijkstra.Relax.{updates, get_or-relax, length-relax}
use in_lib.RoutingServer.Dijkstra.Walk.{Walk, IsSymmetric}
use in_lib.RoutingServer.Dijkstra.Invariant.{
  visited_at, open_count, open_count-set, open_count_zero, lt_of_open, lt_of_visited,
  open_or_visited, distance_at, route_at, Inv, registered,
}

visited_both : (v : List Bool) (k : ℕ) → visited_at v k ≡ true → get_or v k true ≡ true
visited_both [] k h = refl
visited_both (b ∷ v) zero h = h
visited_both (b ∷ v) (suc k) h = visited_both v k h

module _ (m : Matrix) (n src left : ℕ) (s : State) (inv : Inv m n src (suc left) s) (u : ℕ)
    (is_open : open_at s.visited u ≡ true)
    (least : (v : ℕ) → open_at s.visited v ≡ true → distance_at s u ≤ distance_at s v)
    (finite : distance_at s u < int_max) (r : Route) (walk : Walk m n src u (distance_at s u) r)
    (short : length r + left ≤ n) where
  abbrev visited' : List Bool
  visited' = set s.visited u true

  abbrev distance' : List ℕ
  distance' =
      if left == 0 then s.distance else relax (distance_at s u) visited' (row m u) s.distance

  abbrev after : State
  after = record { visited = visited'; distance = distance'; routes = set s.routes u r }

  -- Node `k` gets a new distance.
  abbrev updated : ℕ → Bool
  updated k = not (left == 0) && updates (distance_at s u) visited' (row m u) s.distance k

  distance'-at :
      (k : ℕ)
      → k < n
      → distance_at after k
        ≡ (if updated k then distance_at s u + weight m u k else distance_at s k)
  distance'-at k h = elim (Bool-cases (left == 0)) [
    | inl last ↦ rw last
    | inr more ↦ rw more (
        get_or-relax (distance_at s u) visited' (row m u) s.distance k
          (omega (arith, inv.distance_size)))
  ]

  visited'-at :
      (w : ℕ) (d : Bool) → get_or visited' w d ≡ (if u == w then true else get_or s.visited w d)
  visited'-at w d = get_or-set s.visited u w true d (lt_of_open s.visited u is_open)

  lt_visited' : (w : ℕ) → visited_at visited' w ≡ true → w < n
  lt_visited' w v =
      omega (arith, lt_of_visited visited' w v, length-set s.visited u true, inv.visited_size)

  -- A visited node keeps its distance.
  kept : (w : ℕ) → visited_at visited' w ≡ true → distance_at after w ≡ distance_at s w
  kept w v = ground (arith, distance'-at w (lt_visited' w v), visited_both visited' w v)

  le_before : (w : ℕ) → w < n → distance_at after w ≤ distance_at s w
  le_before w h = ground (arith, distance'-at w h)

  -- A visited node is the new one, or was visited before.
  visited'-cases :
      (w : ℕ) → visited_at visited' w ≡ true → (u ≡ w) ⊎ (visited_at s.visited w ≡ true)
  visited'-cases w v = ground (arith, visited'-at w false)

  visited'-old : (w : ℕ) → visited_at s.visited w ≡ true → visited_at visited' w ≡ true
  visited'-old w v = ground (arith, visited'-at w false)

  visited'-u : visited_at visited' u ≡ true
  visited'-u = ground (arith, visited'-at u false)

  open'-open : (w : ℕ) → open_at visited' w ≡ true → open_at s.visited w ≡ true
  open'-open w o = ground (arith, visited'-at w true)

  le_u : (w : ℕ) → visited_at visited' w ≡ true → distance_at s w ≤ distance_at s u
  le_u w v = elim (visited'-cases w v) [
    | inl own ↦ omega (arith, ap (distance_at s) own)
    | inr old ↦ inv.ordered w u old is_open
  ]

  length-visited' : length visited' ≡ n
  length-visited' = length-set s.visited u true ∙ inv.visited_size

  left_open' : open_count visited' ≡ left
  left_open' = omega (arith, open_count-set s.visited u is_open, inv.left_open)

  triangle_u :
      (v : ℕ) → v < n → weight m u v ≢ 0 → distance_at after v ≤ distance_at s u + weight m u v
  triangle_u v h ne = elim (open_or_visited visited' v (omega (arith, length-visited'))) [
    | inl o ↦ elim (Bool-cases (left == 0)) [
      | inl last ↦ absurd (open_count_zero visited' v (ground (arith, left_open')) o)
      | inr more ↦ ground (arith, distance'-at v h)
    ]
    | inr seen ↦ omega (arith, kept v seen, le_u v seen)
  ]

  length-distance' : length distance' ≡ n
  length-distance' = elim (Bool-cases (left == 0)) [
    | inl last ↦ rw last inv.distance_size
    | inr more ↦
        rw more (length-relax (distance_at s u) visited' (row m u) s.distance ∙ inv.distance_size)
  ]

  abbrev Reached : ℕ → Type 0
  Reached v =
      (distance_at after v < int_max)
      × Walk m n src v (distance_at after v) (route_at after v)
      × (length (route_at after v) + left ≤ n)

  route_at-after : (v : ℕ) → route_at after v ≡ (if u == v then r else route_at s v)
  route_at-after v =
      get_or-set s.routes u v r []
        (omega (arith, inv.routes_size, inv.visited_size, lt_of_open s.visited u is_open))

  Reached-u : Reached u
  Reached-u =
      let own : (u == u) ≡ true = ground arith in
      rw (kept u visited'-u, route_at-after u) (rw own (finite, walk, short))

  Reached-visited : (v : ℕ) → visited_at visited' v ≡ true → Reached v
  Reached-visited v seen = elim (Bool-cases (u == v)) [
    | inl own ↦ let same : u ≡ v = ground arith in subst Reached same Reached-u
    | inr other ↦
        let (fin, path, len) = inv.reached v (ground (arith, visited'-at v false)) in
        rw (kept v seen, route_at-after v) (rw other (fin, path, omega arith))
  ]

  triangle_own :
      (a v : ℕ)
      → u ≡ a
      → v < n
      → weight m a v ≢ 0
      → distance_at after v ≤ distance_at after a + weight m a v
  triangle_own a v own h ne =
      subst (λ k. distance_at after v ≤ distance_at after k + weight m k v) own
        (rw (kept u visited'-u) (triangle_u v h (subst (λ k. weight m k v ≢ 0) (sym own) ne)))

  le_after : (v : ℕ) → open_at s.visited v ≡ true → distance_at s u ≤ distance_at after v
  le_after v o =
      let lt : v < n = omega (arith, lt_of_open s.visited v o, inv.visited_size) in
      ground (arith, distance'-at v lt, least v o)

  updated-weight : (v : ℕ) → updated v ≡ true → weight m u v ≢ 0
  updated-weight v t = ground arith

  after-Inv : src < n → Inv m n src left after
  after-Inv src_lt = record {
    visited_size = length-visited';
    distance_size = length-distance';
    routes_size = length-set s.routes u r ∙ inv.routes_size;
    left_open = left_open';
    source = ground (arith, distance'-at src src_lt, inv.source);
    bounded = λ v h. omega (arith, le_before v h, inv.bounded v h);
    reached = Reached-visited;
    triangle = λ a v seen h ne. elim (visited'-cases a seen) [
      | inl own ↦ triangle_own a v own h ne
      | inr old ↦ omega (arith, kept a seen, le_before v h, inv.triangle a v old h ne)
    ];
    ordered = λ a v seen o. omega (arith, kept a seen, le_u a seen, le_after v (open'-open v o));
    predecessor = λ v h ne lt. elim (Bool-cases (updated v)) [
      | inl t ↦
          (u, visited'-u, updated-weight v t, rw (kept u visited'-u) (distance'-at v h ∙ rw t))
      | inr t ↦
          let same : distance_at after v ≡ distance_at s v = distance'-at v h ∙ rw t in
          let (j, seen, w, e) = inv.predecessor v h ne (omega arith) in
          (j, visited'-old j seen, w, omega (arith, kept j (visited'-old j seen)))
    ];
  }

-- An update that is defined delivers the exact distances.
update_lem :
    (m : Matrix) (left : ℕ) (dist : List ℕ) (visited : List Bool) (u : ℕ) (after : List ℕ)
    → update u m left visited dist ≡ done after
    → after ≡ (if left == 0 then dist else relax (get_or dist u 0) visited (row m u) dist)
unfolding update
update_lem m left dist visited u after h = elim (Bool-cases (left == 0)) [
  | inl last ↦ rw last (sym (done_inj (rw last at h)))
  | inr more ↦ rw more (
      sym (
        done_inj
          (if_defined (sums_fit (get_or dist u 0) visited (row m u)) _ after (rw more at h))))
]

-- A round that returns keeps the invariant.
pub round-Inv :
    (m : Matrix) (n src left : ℕ) (s s' : State)
    → IsSymmetric m
    → src < n
    → Inv m n src (suc left) s
    → round src m left s ≡ done s'
    → Inv m n src left s'
unfolding round
round-Inv m n src left s s' symmetric src_lt inv e =
    let sizes = inv.distance_size ∙ sym inv.visited_size in
    let (u, picked, e1) =
      bind-eq-done (some_or_failed (get_min_distance_idx s.distance s.visited)) _ s' e in
    let found = some_or_failed-eq-done (get_min_distance_idx s.distance s.visited) u picked in
    let (is_open, least) = get_min_distance_idx-least s.distance s.visited sizes u found in
    let (routes, route, e2) =
      bind-eq-done (register_route src u m (set s.visited u true) s.distance s.routes) _ s' e1 in
    let (distance, updated, e3) =
      bind-eq-done (update u m left (set s.visited u true) s.distance) _ s' e2 in
    let (finite, r, same, walk, short) =
      registered m n src symmetric left s inv u is_open routes route in
    let same_distance = update_lem m left s.distance (set s.visited u true) u distance updated in
    subst (Inv m n src left) (rw (same, same_distance) at (done_inj e3))
      (after-Inv m n src left s inv u is_open least finite r walk short src_lt)
