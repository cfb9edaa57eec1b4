-- ===== src/Router/Flags/Laws.antt =====
-- What `printRouter` reports after `setFlag`, and which calls `setFlag` refuses.
use in_lib.Base.{
  ℕ, ◌<◌, ◌≡◌, ◌⊎◌, ◌↔◌, sym, subst, ltb, Bool-cases, Option-cases, inl, inr, refl, arith, true,
  false, ◌||◌, some, List, success, failure, ◌==◌, if◌then◌else◌, set, get_or-set_self,
}
use in_lib.Base.Int.{ℤ, pos, negsuc}
use in_lib.Router.{
  Router, no_router, router_at, find_router_id, find_router_id-lt, find_router_id-set,
}
use in_lib.Router.Flags.{bad_flag, bad_value, new_flag, set_flag, Report, report, print_router}
use in_lib.Router.Flags.Bits.{
  modification_number_of-new_flag, modification_number_of-new_flag_kept, bit_shown-new_flag,
  bit_shown-new_flag_4,
}

-- The values that the flags take, by the assignment.
pub data Takes : ℤ → ℤ → Type 0 where
  one_bit : (flag value : ℕ) → flag < 3 → value < 2 → Takes (pos flag) (pos value)
  number : (value : ℕ) → value < 16 → Takes (pos 4) (pos value)

success≢failure : success ≡ failure → ⊥
success≢failure h = cc

Takes-fine : (flag value : ℤ) → Takes flag value → bad_flag flag || bad_value flag value ≡ true → ⊥
Takes-fine flag value (one_bit f v hf hv) bad = ground arith
Takes-fine flag value (number v hv) bad = ground arith

fine-Takes : (flag value : ℤ) → bad_flag flag || bad_value flag value ≡ false → Takes flag value
fine-Takes (negsuc f) value fine = absurd (ground arith)
fine-Takes (pos f) (negsuc v) fine = absurd (ground arith)
fine-Takes (pos f) (pos v) fine = elim (Bool-cases (ltb f 3)) [
  | inl bit ↦ one_bit f v (ground arith) (ground arith)
  | inr other ↦
      let four : f ≡ 4 = ground arith in
      subst (λ k. Takes (pos k) (pos v)) (sym four) (number v (ground arith))
]

module _ (rs : List Router) (id : ℤ) where
  -- The call succeeds if and only if a router has the id and the flag takes the value, which is 0 or 1
  -- for the flags 0, 1 and 2, and 0 to 15 for the flag 4; no other flag takes any. A call that does not
  -- succeed changes nothing.
  pub set_flag_accepts :
      (flag value : ℤ)
      → let (status, rs') = set_flag rs id flag value in
        ((status ≡ success) ↔ (Takes flag value × (i : ℕ) × (find_router_id rs id ≡ some i)))
        × ((status ≡ success) ⊎ ((status ≡ failure) × (rs' ≡ rs)))
  unfolding set_flag
  set_flag_accepts flag value = elim (Bool-cases (bad_flag flag || bad_value flag value)) [
    | inl bad ↦ rw bad (
      (
        λ clash. absurd (success≢failure (sym clash)),
        λ (takes, i, found). absurd (Takes-fine flag value takes bad),
      ),
      inr (refl, refl),
    )
    | inr fine ↦ elim (Option-cases (find_router_id rs id)) [
      | inl missing ↦
          rw (fine, missing)
            (
              (λ clash. absurd (success≢failure (sym clash)), λ (takes, i, found). cc),
              inr (refl, refl),
            )
      | inr (i, found) ↦
          rw (fine, found)
            ((λ same. (fine-Takes flag value fine, i, refl), λ takes. refl), inl refl)
    ]
  ]

  module _ (i : ℕ) (found : find_router_id rs id ≡ some i) where
    set_flag_writes :
        (flag value : ℕ)
        → bad_flag (pos flag) || bad_value (pos flag) (pos value) ≡ false
        → set_flag rs id (pos flag) (pos value) ≡ (
          success,
          set rs i (record (router_at rs i) { flag = new_flag (router_at rs i).flag flag value }),
        )
    unfolding set_flag
    set_flag_writes flag value fine = rw (fine, found)

    print_router-set :
        (r : Router)
        → r.router_id ≡ (router_at rs i).router_id
        → print_router (set rs i r) id ≡ some (report id r)
    unfolding print_router
    print_router-set r same =
        rw (find_router_id-set rs i r id same, found)
          (rw (get_or-set_self rs i r no_router (find_router_id-lt rs id i found)) refl)

    -- Setting a flag of 0, 1, 2 succeeds; `printRouter` then shows the value for that flag, and for
    -- the two others and the modification number what it showed before.
    pub set_flag-print_router :
        (flag value : ℕ)
        → (router_at rs i).flag < 256
        → flag < 3
        → value < 2
        → let (status, rs') = set_flag rs id (pos flag) (pos value) in
          let before = report id (router_at rs i) in
          (shown : Report) × (status ≡ success)
          × (print_router rs' id ≡ some shown)
          × (shown.active ≡ (if 0 == flag then value == 1 else before.active))
          × (shown.wireless ≡ (if 1 == flag then value == 1 else before.wireless))
          × (shown.five_ghz ≡ (if 2 == flag then value == 1 else before.five_ghz))
          × (shown.modification_number ≡ before.modification_number)
    unfolding report
    set_flag-print_router flag value hb hf hv =
        let byte = (router_at rs i).flag in
        let r = record (router_at rs i) { flag = new_flag byte flag value } in
        let bits = λ (k : ℕ) (hk : k < 3). bit_shown-new_flag byte flag value k hb hf hv hk in
        let done = set_flag_writes flag value (ground arith) in
        (
          report id r,
          rw done,
          rw done (print_router-set r refl),
          bits 0 (omega arith),
          bits 1 (omega arith),
          bits 2 (omega arith),
          modification_number_of-new_flag_kept byte flag value hb hf hv,
        )

    -- Setting flag 4 succeeds; `printRouter` then shows the value as the modification number, and the
    -- three flags as before.
    pub set_flag_4-print_router :
        (value : ℕ)
        → (router_at rs i).flag < 256
        → value < 16
        → let (status, rs') = set_flag rs id (pos 4) (pos value) in
          let before = report id (router_at rs i) in
          (shown : Report) × (status ≡ success)
          × (print_router rs' id ≡ some shown)
          × (shown.modification_number ≡ value)
          × (shown.active ≡ before.active)
          × (shown.wireless ≡ before.wireless)
          × (shown.five_ghz ≡ before.five_ghz)
    unfolding report
    set_flag_4-print_router value hb hv =
        let byte = (router_at rs i).flag in
        let r = record (router_at rs i) { flag = new_flag byte 4 value } in
        let bits = λ (k : ℕ) (hk : k < 3). bit_shown-new_flag_4 byte value k hb hv hk in
        let done = set_flag_writes 4 value (ground arith) in
        (
          report id r,
          rw done,
          rw done (print_router-set r refl),
          (modification_number_of-new_flag byte value hb hv).0,
          bits 0 (omega arith),
          bits 1 (omega arith),
          bits 2 (omega arith),
        )
