-- ===== src/RoutingServer/Validation/Invariant.antt =====
-- validation.c: one report keeps what the counters and the invalid edges say of the reports so far.
use in_lib.Base.{
  some_inj, ℕ, suc, ◌≡◌, refl, sym, ap, ◌∙◌, subst, Bool, true, false, ◌&&◌, ◌||◌, none, some, List,
  [], ◌∷◌, ◌++◌, arith, ◌==◌, if◌then◌else◌, length, get_or, set, Bool-cases, ◌⊎◌, inl, inr,
  bind-eq-some,
}
use in_lib.RoutingServer.Network.{Edge, EdgeArray, Neighbor}
use in_lib.RoutingServer.Validation.{
  same_edge, is_edge_present, find_counter, EdgeCounter, State, found, no_counter,
  add_edge_to_edge_counter_array, encounter, report, check_if_edge_is_valid, edge_of,
}
use in_lib.RoutingServer.Validation.Reports.{
  Report, report_of, about, about-concat_same, about-concat_other, is_bad_so_far, counter_for,
  disagree,
}
use in_lib.RoutingServer.Validation.Counters.{
  counter_of, edges, IsDistinct, IsDistinct-concat, apart, Search-cases, counter_of-absent,
  find_counter-not_found, find_counter-found,
}
use in_lib.RoutingServer.Validation.Invalid.{
  check_if_edge_is_valid_lem, fails, same_edge→≡, or_assoc, or_false,
}

-- After the reports `done`: the counters and the invalid edges say what the reports say.
pub record Inv (before : EdgeArray) (done : List Report) (s : State) : Type 0 where
  pub counted : (f : Edge) → counter_of f s.counters.array ≡ counter_for f (about f done)
  pub marked :
      (f : Edge)
      → is_edge_present f s.invalid.array
        ≡ (is_edge_present f before.array || is_bad_so_far (about f done))
  pub distinct : IsDistinct (edges s.counters.array)

counter_of-concat :
    (f : Edge) (cs : List EdgeCounter) (c : EdgeCounter)
    → is_edge_present c.edge (edges cs) ≡ false
    → counter_of f (cs ++ c ∷ []) ≡ (if same_edge c.edge f then some c else counter_of f cs)
unfolding is_edge_present
counter_of-concat f [] c new = refl
counter_of-concat f (d ∷ cs) c new = elim (Bool-cases (same_edge d.edge c.edge)) [
  | inl same ↦ absurd (let clash = rw same at new in cc)
  | inr other ↦ elim (Bool-cases (same_edge d.edge f)) [
    | inl at_d ↦ rw (at_d, apart d.edge c.edge f at_d other) refl
    | inr off_d ↦ rw off_d (counter_of-concat f cs c (rw other at new))
  ]
]

edges-concat :
    (cs : List EdgeCounter) (c : EdgeCounter) → edges (cs ++ c ∷ []) ≡ edges cs ++ c.edge ∷ []
edges-concat [] c = refl
edges-concat (d ∷ cs) c = ap (λ es. d.edge ∷ es) (edges-concat cs c)

unreported : (f : Edge) (rs : List Report) → counter_for f rs ≡ none → rs ≡ []
unreported f [] h = refl
unreported f (r ∷ rs) h = cc

List-cases : (rs : List Report) → (rs ≡ []) ⊎ ((q : Report) × (qs : List Report) × (rs ≡ q ∷ qs))
List-cases [] = inl refl
List-cases (q ∷ qs) = inr (q, qs, refl)

abbrev new_counter : Report → EdgeCounter
new_counter r = record {
  edge = r.edge;
  encounters = 1;
  address_of_first_index = r.reporter;
  reported_weight = r.weight;
}

-- A report about an edge that no counter has.
new-Inv :
    (before : EdgeArray) (done : List Report) (r : Report) (s : State)
    → Inv before done s
    → is_edge_present r.edge (edges s.counters.array) ≡ false
    → Inv before (done ++ r ∷ []) (record s {
      counters = record s.counters { array = s.counters.array ++ new_counter r ∷ [] };
    })
new-Inv before done r s inv new =
    let none_done = λ (f : Edge) (same : same_edge r.edge f ≡ true). unreported f (about f done) (
      sym (inv.counted f)
      ∙ counter_of-absent f s.counters.array (
          subst (λ e. is_edge_present e (edges s.counters.array) ≡ false)
            (same_edge→≡ r.edge f same) new)) in
    record {
      counted = λ f.
          counter_of-concat f s.counters.array (new_counter r) new
          ∙ elim (Bool-cases (same_edge r.edge f)) [
            | inl same ↦
                rw (same, about-concat_same f done r same, none_done f same)
                  (ap (λ e. some (record (new_counter r) { edge = e })) (same_edge→≡ r.edge f same))
            | inr other ↦ rw (other, about-concat_other f done r other) (inv.counted f)
          ];
      marked = λ f. elim (Bool-cases (same_edge r.edge f)) [
        | inl same ↦
            rw (about-concat_same f done r same) (inv.marked f ∙ rw (none_done f same) refl)
        | inr other ↦ rw (about-concat_other f done r other) (inv.marked f)
      ];
      distinct =
          rw (edges-concat s.counters.array (new_counter r))
            (IsDistinct-concat r.edge (edges s.counters.array) new inv.distinct);
    }

or_true : (a : Bool) → (a || true) ≡ true
or_true true = refl
or_true false = refl

length-snoc : (r : Report) (qs : List Report) → length (qs ++ r ∷ []) ≡ suc (length qs)
length-snoc r [] = refl
length-snoc r (q ∷ qs) = ap suc (length-snoc r qs)

-- The checks at one more report find what makes the reports bad.
is_bad_so_far-concat :
    (f : Edge) (q r : Report) (qs : List Report)
    → (is_bad_so_far (q ∷ qs)
        || fails r.reporter r.weight (record {
          edge = f;
          encounters = suc (suc (length qs));
          address_of_first_index = q.reporter;
          reported_weight = q.weight;
        }))
      ≡ is_bad_so_far ((q ∷ qs) ++ r ∷ [])
is_bad_so_far-concat f q r [] = refl
is_bad_so_far-concat f q r (p ∷ []) = or_true (disagree q p)
is_bad_so_far-concat f q r (p ∷ o ∷ ps) = refl

-- The counter of an edge that was reported, and its reports.
reported :
    (f : Edge) (rs : List Report) (c : EdgeCounter)
    → counter_for f rs ≡ some c
    → (q : Report) × (qs : List Report) × (rs ≡ q ∷ qs)
      × (c ≡ record {
        edge = f;
        encounters = suc (length qs);
        address_of_first_index = q.reporter;
        reported_weight = q.weight;
      })
reported f [] c h = cc
reported f (q ∷ qs) c h = (q, qs, refl, some_inj (sym h))

abbrev met_again : EdgeCounter → EdgeCounter
met_again c = record c { encounters = suc c.encounters }

-- The counter of an edge after the reports `q`, `qs` and one more.
abbrev counter_after : Edge → Report → List Report → EdgeCounter
counter_after e q qs = record {
  edge = e;
  encounters = suc (suc (length qs));
  address_of_first_index = q.reporter;
  reported_weight = q.weight;
}

-- A report about an edge that has a counter.
again-Inv :
    (before : EdgeArray) (done : List Report) (r : Report) (s : State) (cs : List EdgeCounter)
    (invalid : EdgeArray) (q : Report) (qs : List Report)
    → Inv before done s
    → about r.edge done ≡ q ∷ qs
    → edges cs ≡ edges s.counters.array
    → ((f : Edge)
        → counter_of f cs ≡ (
            if same_edge r.edge f
            then some (counter_after r.edge q qs)
            else counter_of f s.counters.array))
    → ((f : Edge)
        → is_edge_present f invalid.array ≡ (
            is_edge_present f s.invalid.array
            || (same_edge r.edge f && fails r.reporter r.weight (counter_after r.edge q qs))))
    → Inv before
        (done ++ r ∷ [])
        (record { counters = record s.counters { array = cs }; invalid = invalid })
again-Inv before done r s cs invalid q qs inv all same_edges then_set checked =
    let all_at = λ (f : Edge) (same : same_edge r.edge f ≡ true).
      subst (λ e. about e done ≡ q ∷ qs) (same_edge→≡ r.edge f same) all in
    record {
      counted = λ f. then_set f ∙ elim (Bool-cases (same_edge r.edge f)) [
        | inl same ↦
            rw (same, about-concat_same f done r same, all_at f same, length-snoc r qs)
              (ap (λ e. some (counter_after e q qs)) (same_edge→≡ r.edge f same))
        | inr other ↦ rw (other, about-concat_other f done r other) (inv.counted f)
      ];
      marked = λ f. checked f ∙ elim (Bool-cases (same_edge r.edge f)) [
        | inl same ↦
            rw (same, about-concat_same f done r same, inv.marked f, all_at f same)
              (sym (or_assoc (is_edge_present f before.array) (is_bad_so_far (q ∷ qs)) _)
                ∙ ap (λ b. is_edge_present f before.array || b)
                    (is_bad_so_far-concat r.edge q r qs))
        | inr other ↦
            rw (other, about-concat_other f done r other)
              (sym (or_false (is_edge_present f s.invalid.array)) ∙ inv.marked f)
      ];
      distinct = subst IsDistinct (sym same_edges) inv.distinct;
    }

encounter-Inv :
    (before : EdgeArray) (done : List Report) (r : Report) (s after : State) (i : ℕ)
    → Inv before done s
    → find_counter s.counters.max_edges 0 r.edge s.counters.array ≡ found i
    → encounter r.edge r.reporter r.weight i s ≡ some after
    → Inv before (done ++ r ∷ []) after
unfolding encounter
encounter-Inv before done r s after i inv hit ran =
    let cs = s.counters.array in
    let (j, at, first, here, then_set) =
      find_counter-found s.counters.max_edges 0 r.edge cs i hit in
    let (q, qs, all, what) =
      reported r.edge (about r.edge done) (get_or cs j no_counter)
        (sym (inv.counted r.edge) ∙ first) in
    let (invalid, checked, rest) =
      bind-eq-some
        (check_if_edge_is_valid r.edge r.reporter r.weight (met_again (get_or cs j no_counter))
          s.invalid)
        _ after
        (subst (λ n. encounter r.edge r.reporter r.weight n s ≡ some after) (omega (arith, at))
          ran) in
    let c_after = ap met_again what in
    let (same_edges, at_edges) = then_set (met_again (get_or cs j no_counter)) here in
    subst (Inv before (done ++ r ∷ [])) (some_inj rest) (
      again-Inv before done r s (set cs j (met_again (get_or cs j no_counter))) invalid q qs inv all
        same_edges
        (λ f. at_edges f ∙ ap (λ c. if same_edge r.edge f then some c else counter_of f cs) c_after)
        (λ f.
          check_if_edge_is_valid_lem r.edge r.reporter r.weight (met_again (get_or cs j no_counter))
            s.invalid invalid checked f
          ∙ ap
              (λ c.
                is_edge_present f s.invalid.array
                || (same_edge r.edge f && fails r.reporter r.weight c))
              c_after))

-- One report.
pub report-Inv :
    (before : EdgeArray) (done : List Report) (address : ℕ) (nb : Neighbor) (s after : State)
    → Inv before done s
    → report address nb s ≡ some after
    → Inv before (done ++ report_of address nb ∷ []) after
unfolding report add_edge_to_edge_counter_array
report-Inv before done address nb s after inv ran =
    let e = edge_of address nb.address in
    elim (Search-cases (find_counter s.counters.max_edges 0 e s.counters.array)) [
      | inl out ↦ absurd (let clash = rw (report, out) at ran in cc)
      | inr (inl none_found) ↦
          let new = find_counter-not_found s.counters.max_edges 0 e s.counters.array none_found in
          elim (Bool-cases (length s.counters.array == s.counters.max_edges)) [
            | inl no_room ↦ absurd (
                let clash =
                  rw (report, none_found, add_edge_to_edge_counter_array, no_room) at ran in
                cc)
            | inr room ↦
                let t =
                  some_inj (rw (report, none_found, add_edge_to_edge_counter_array, room) at ran) in
                subst (Inv before (done ++ report_of address nb ∷ [])) t
                  (new-Inv before done (report_of address nb) s inv new)
          ]
      | inr (inr (i, hit)) ↦
          encounter-Inv before done (report_of address nb) s after i inv hit
            (rw (report, hit) at ran)
    ]
