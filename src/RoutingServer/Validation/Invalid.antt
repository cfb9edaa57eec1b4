-- ===== src/RoutingServer/Validation/Invalid.antt =====
-- validation.c: which edges the array of the invalid edges holds after each check.
use in_lib.Base.{
  some_inj, ℕ, ◌≡◌, refl, sym, ap, Bool, true, false, not, ◌&&◌, ◌||◌, some, List, [], ◌∷◌, ◌++◌,
  arith, ◌==◌, ltb, if◌then◌else◌, length, Bool-cases, inl, inr, ◌∙◌, bind-eq-some,
}
use in_lib.RoutingServer.Network.{Edge, EdgeArray}
use in_lib.RoutingServer.Validation.{
  same_edge, is_edge_present, add_invalid_edge, check_if_edge_is_valid, check_dual_report,
  EdgeCounter,
}

pub same_edge_self : (e : Edge) → same_edge e e ≡ true
unfolding same_edge
same_edge_self e = ground arith

pub same_edge→≡ : (e f : Edge) → same_edge e f ≡ true → e ≡ f
unfolding same_edge
same_edge→≡ e f h = grind (arith, h)

pub or_assoc : (a b c : Bool) → (a || (b || c)) ≡ ((a || b) || c)
or_assoc true b c = refl
or_assoc false b c = refl

pub or_false : (a : Bool) → a ≡ (a || false)
or_false true = refl
or_false false = refl

pub is_edge_present-concat :
    (f e : Edge) (es : List Edge)
    → is_edge_present f (es ++ e ∷ []) ≡ (is_edge_present f es || same_edge e f)
unfolding is_edge_present
is_edge_present-concat f e [] = ground arith
is_edge_present-concat f e (d ∷ es) =
    rw (is_edge_present-concat f e es, or_assoc (same_edge d f) (is_edge_present f es)) refl

absorbed :
    (e f : Edge) (es : List Edge)
    → is_edge_present e es ≡ true
    → is_edge_present f es ≡ (is_edge_present f es || same_edge e f)
absorbed e f es h = elim (Bool-cases (same_edge e f)) [
  | inl same ↦
      let at_f = ap (λ g. is_edge_present g es) (same_edge→≡ e f same) in rw (sym at_f, h) refl
  | inr other ↦ rw other (or_false (is_edge_present f es))
]

-- The array holds the edge afterwards, and what it held before.
pub add_invalid_edge_lem :
    (e : Edge) (invalid after : EdgeArray)
    → add_invalid_edge e invalid ≡ some after
    → (f : Edge)
    → is_edge_present f after.array ≡ (is_edge_present f invalid.array || same_edge e f)
unfolding add_invalid_edge
add_invalid_edge_lem e invalid after h f = elim (Bool-cases (is_edge_present e invalid.array)) [
  | inl present ↦
      let kept = some_inj (rw present at h) in rw (sym kept) (absorbed e f invalid.array present)
  | inr absent ↦ elim (Bool-cases (length invalid.array == invalid.max_edges)) [
    | inl no_room ↦ absurd (cc)
    | inr room ↦
        let grown = some_inj (rw (absent, room) at h) in
        rw (sym grown) (is_edge_present-concat f e invalid.array)
  ]
]

-- Whether a counter and a further report show the edge to be invalid.
abbrev pub fails : ℕ → ℕ → EdgeCounter → Bool
fails address weight c =
    ltb 2 c.encounters || (c.address_of_first_index == address) || not (c.reported_weight == weight)

or_if {ℓ} :
    {A : Type ℓ} (a b c : Bool) (x y : A)
    → (if a then x else (if b then x else (if c then x else y))) ≡ (if a || b || c then x else y)
or_if true b c x y = refl
or_if false true c x y = refl
or_if false false c x y = refl

and_true : (a : Bool) → a ≡ (a && true)
and_true true = refl
and_true false = refl

and_false : (a b : Bool) → a ≡ (a || (b && false))
and_false true b = refl
and_false false true = refl
and_false false false = refl

-- The three checks are one test.
check_if_edge_is_valid-fails :
    (e : Edge) (address weight : ℕ) (c : EdgeCounter) (invalid : EdgeArray)
    → check_if_edge_is_valid e address weight c invalid
      ≡ (if fails address weight c then add_invalid_edge e invalid else some invalid)
unfolding check_if_edge_is_valid
check_if_edge_is_valid-fails e address weight c invalid =
    or_if (ltb 2 c.encounters) (c.address_of_first_index == address)
      (not (c.reported_weight == weight)) (add_invalid_edge e invalid) (some invalid)

pub check_if_edge_is_valid_lem :
    (e : Edge) (address weight : ℕ) (c : EdgeCounter) (invalid after : EdgeArray)
    → check_if_edge_is_valid e address weight c invalid ≡ some after
    → (f : Edge)
    → is_edge_present f after.array
      ≡ (is_edge_present f invalid.array || (same_edge e f && fails address weight c))
unfolding check_if_edge_is_valid
check_if_edge_is_valid_lem e address weight c invalid after h f =
    let split = sym (check_if_edge_is_valid-fails e address weight c invalid) ∙ h in
    elim (Bool-cases (fails address weight c)) [
      | inl bad ↦
          let added = add_invalid_edge_lem e invalid after (rw bad at split) f in
          rw bad (added ∙ ap (λ b. is_edge_present f invalid.array || b) (and_true (same_edge e f)))
      | inr good ↦
          let kept = some_inj (rw good at split) in
          rw (good, sym kept) (and_false (is_edge_present f invalid.array) (same_edge e f))
    ]

-- Whether one of the counters for the edge was met only once.
abbrev pub met_once : Edge → List EdgeCounter → Bool
met_once f [] = false
met_once f (c ∷ cs) = (same_edge c.edge f && ltb c.encounters 2) || met_once f cs

pub check_dual_report_lem :
    (cs : List EdgeCounter) (invalid after : EdgeArray)
    → check_dual_report cs invalid ≡ some after
    → (f : Edge)
    → is_edge_present f after.array ≡ (is_edge_present f invalid.array || met_once f cs)
unfolding check_dual_report
check_dual_report_lem [] invalid after h f =
    let kept = some_inj h in rw (sym kept) (or_false (is_edge_present f invalid.array))
check_dual_report_lem (c ∷ cs) invalid after h f =
    let rest = check_dual_report_lem cs in
    elim (Bool-cases (ltb c.encounters 2)) [
      | inl once ↦
          let (mid, added, then_rest) =
            bind-eq-some (add_invalid_edge c.edge invalid) (check_dual_report cs) after
              (rw once at h) in
          rw
            (
              once,
              rest mid after then_rest f,
              add_invalid_edge_lem c.edge invalid mid added f,
              sym (and_true (same_edge c.edge f)),
            )
            (sym (or_assoc (is_edge_present f invalid.array) (same_edge c.edge f) (met_once f cs)))
      | inr often ↦
          rw (often, rest invalid after (rw often at h) f)
            (ap (λ b. b || met_once f cs)
                (and_false (is_edge_present f invalid.array) (same_edge c.edge f))
              ∙ sym (
                  or_assoc (is_edge_present f invalid.array) (same_edge c.edge f && false)
                    (met_once f cs)))
    ]
