-- ===== src/RoutingServer/Validation/Counters.antt =====
-- validation.c: the search among the counters, and what the counters of an edge say.
use in_lib.Base.{
  ℕ, suc, ◌+◌, ◌≡◌, refl, sym, ap, ◌∙◌, subst, Bool, true, false, Option, none, some, List, [], ◌∷◌,
  ◌++◌, map, arith, ◌==◌, ltb, if◌then◌else◌, get_or, set, Bool-cases, ◌⊎◌, inl, inr,
}
use in_lib.RoutingServer.Network.{Edge}
use in_lib.RoutingServer.Validation.{
  same_edge, is_edge_present, find_counter, EdgeCounter, Search, found, not_found, out_of_bounds,
  no_counter,
}
use in_lib.RoutingServer.Validation.Invalid.{
  same_edge→≡, is_edge_present-concat, met_once, or_false,
}

-- The first counter for an edge.
abbrev pub counter_of : Edge → List EdgeCounter → Option EdgeCounter
counter_of f [] = none
counter_of f (c ∷ cs) = if same_edge c.edge f then some c else counter_of f cs

abbrev pub edges : List EdgeCounter → List Edge
edges cs = map (λ c. c.edge) cs

abbrev pub IsDistinct : List Edge → Type 0
IsDistinct [] = Unit
IsDistinct (e ∷ es) = (is_edge_present e es ≡ false) × IsDistinct es

pub same_edge-sym : (e f : Edge) → same_edge e f ≡ same_edge f e
unfolding same_edge
same_edge-sym e f = ground arith

pub IsDistinct-concat :
    (e : Edge) (es : List Edge)
    → is_edge_present e es ≡ false
    → IsDistinct es
    → IsDistinct (es ++ e ∷ [])
unfolding is_edge_present
IsDistinct-concat e [] absent d = (refl, tt)
IsDistinct-concat e (x ∷ es) absent d = elim (Bool-cases (same_edge x e)) [
  | inl same ↦ absurd (let clash = rw same at absent in cc)
  | inr other ↦ (
    rw (is_edge_present-concat x e es, d.0, same_edge-sym e x) other,
    IsDistinct-concat e es (rw other at absent) d.1,
  )
]

pub Search-cases :
    (s : Search) → (s ≡ out_of_bounds) ⊎ ((s ≡ not_found) ⊎ ((i : ℕ) × (s ≡ found i)))
Search-cases out_of_bounds = inl refl
Search-cases not_found = inr (inl refl)
Search-cases (found i) = inr (inr (i, refl))

pub counter_of-absent :
    (f : Edge) (cs : List EdgeCounter)
    → is_edge_present f (edges cs) ≡ false
    → counter_of f cs ≡ none
unfolding is_edge_present
counter_of-absent f [] h = refl
counter_of-absent f (c ∷ cs) h = elim (Bool-cases (same_edge c.edge f)) [
  | inl same ↦ absurd (let clash = rw same at h in cc)
  | inr other ↦ rw other (counter_of-absent f cs (rw other at h))
]

pub find_counter-not_found :
    (m k : ℕ) (e : Edge) (cs : List EdgeCounter)
    → find_counter m k e cs ≡ not_found
    → is_edge_present e (edges cs) ≡ false
unfolding find_counter is_edge_present
find_counter-not_found m k e [] h = refl
find_counter-not_found m k e (c ∷ cs) h = elim (Bool-cases (suc k == m)) [
  | inl last ↦ absurd (let clash = rw last at h in cc)
  | inr more ↦ elim (Bool-cases (same_edge c.edge e)) [
    | inl same ↦ absurd (let clash = rw (more, same) at h in cc)
    | inr other ↦ rw other (find_counter-not_found m (suc k) e cs (rw (more, other) at h))
  ]
]

if_if {ℓ} :
    {A : Type ℓ} (b : Bool) (x y z : A)
    → (if b then x else z) ≡ (if b then x else (if b then y else z))
if_if true x y z = refl
if_if false x y z = refl

pub apart : (c e f : Edge) → same_edge c f ≡ true → same_edge c e ≡ false → same_edge e f ≡ false
unfolding same_edge
apart c e f at_c other = ground (arith, at_c, other)

-- The counter that was found is the first one for the edge; what is written in its place is then
-- the first one, and the counters of the other edges stay.
pub find_counter-found :
    (m k : ℕ) (e : Edge) (cs : List EdgeCounter) (i : ℕ)
    → find_counter m k e cs ≡ found i
    → (j : ℕ) × (i ≡ k + j)
      × (counter_of e cs ≡ some (get_or cs j no_counter))
      × ((get_or cs j no_counter).edge ≡ e)
      × ((c : EdgeCounter)
          → c.edge ≡ e
          → (edges (set cs j c) ≡ edges cs)
            × ((f : Edge)
                → counter_of f (set cs j c) ≡ (if same_edge e f then some c else counter_of f cs)))
unfolding find_counter
find_counter-found m k e [] i h = absurd (cc)
find_counter-found m k e (c ∷ cs) i h = elim (Bool-cases (suc k == m)) [
  | inl last ↦ absurd (let clash = rw last at h in cc)
  | inr more ↦ elim (Bool-cases (same_edge c.edge e)) [
    | inl same ↦ (
      0,
      let idx = ap (λ s. elim s [ found n ↦ n | _ ↦ 0 ]) (rw (more, same) at h) in
          omega (arith, idx),
      rw same refl,
      same_edge→≡ c.edge e same,
      λ d de. (
        ap (λ x. x ∷ edges cs) (de ∙ sym (same_edge→≡ c.edge e same)),
        λ f.
            rw (ap (λ x. same_edge x f) de, ap (λ x. same_edge x f) (same_edge→≡ c.edge e same))
              (if_if (same_edge e f) (some d) (some c) (counter_of f cs)),
      ),
    )
    | inr other ↦
        let (j, at, first, here, then_set) =
          find_counter-found m (suc k) e cs i (rw (more, other) at h) in
        (
          suc j,
          omega (arith, at),
          rw other first,
          here,
          λ d de. (
            ap (λ es. c.edge ∷ es) (then_set d de).0,
            λ f. elim (Bool-cases (same_edge c.edge f)) [
              | inl at_c ↦ rw at_c (rw (apart c.edge e f at_c other) refl)
              | inr off_c ↦ rw off_c ((then_set d de).1 f)
            ],
          ),
        )
  ]
]

-- No counter for the edge was met only once when there is none.
met_once-absent :
    (f : Edge) (cs : List EdgeCounter)
    → is_edge_present f (edges cs) ≡ false
    → met_once f cs ≡ false
unfolding is_edge_present
met_once-absent f [] h = refl
met_once-absent f (c ∷ cs) h = elim (Bool-cases (same_edge c.edge f)) [
  | inl same ↦ absurd (let clash = rw same at h in cc)
  | inr other ↦ rw other (met_once-absent f cs (rw other at h))
]

abbrev pub was_met_once : Option EdgeCounter → Bool
was_met_once none = false
was_met_once (some c) = ltb c.encounters 2

-- With one counter for each edge, the first one decides.
pub met_once-counter_of :
    (f : Edge) (cs : List EdgeCounter)
    → IsDistinct (edges cs)
    → met_once f cs ≡ was_met_once (counter_of f cs)
met_once-counter_of f [] d = refl
met_once-counter_of f (c ∷ cs) d = elim (Bool-cases (same_edge c.edge f)) [
  | inl same ↦
      let gone =
        subst (λ e. is_edge_present e (edges cs) ≡ false) (same_edge→≡ c.edge f same) d.0 in
      rw (same, met_once-absent f cs gone) (sym (or_false (ltb c.encounters 2)))
  | inr other ↦ rw other (met_once-counter_of f cs d.1)
]
