-- ===== src/Router/Tests.antt =====
-- The theorems on the routers at concrete arrays.
use in_lib.Base.{
  ℕ, ◌-◌, ◌≡◌, ◌≢◌, ◌↔◌, ◌⊎◌, inl, inr, refl, Bool, true, false, Option, none, some, List, [], ◌∷◌,
  map, arith, length, success, failure, All, All-get_or, Listed, subst, ◌==◌, if◌then◌else◌, one_if,
}
use in_lib.Base.Int.{ℤ, pos}
use in_lib.Base.SwapRemove.{swap_remove}
use in_lib.Router.{
  Router, Slot, no_router, router_at, find_router_id, find_router_id-lt, find_free_neighbor,
}
use in_lib.Router.Slots.{slots_of, listed}
use in_lib.Router.Model.{set_model, set_model_sets, set_model_refuses}
use in_lib.Router.Links.{
  add_link, AllCompact, add_link_appends, add_link_refuses, add_link-AllCompact,
}
use in_lib.Router.Deletion.References.{
  remove_reference, slots_without, count, remove_reference-slots_of, count-remove_reference,
}
use in_lib.Router.Deletion.Array.{
  delete_router, strip, delete_router_removes, delete_router_first_of_two,
}
use in_lib.Router.Flags.{set_flag, Report, report, print_router}
use in_lib.Router.Flags.Laws.{
  Takes, set_flag_accepts, set_flag-print_router, set_flag_4-print_router,
}
use in_lib.Router.Search.{exists_route}
use in_lib.Router.Search.Links.{Route}
use in_lib.Router.Search.Run.{Known, AllKnown}
use in_lib.Router.Search.Correct.{exists_route_decides}
use in_lib.Router.Search.Returns.{exists_route_returns}

abbrev router : ℕ → List ℕ → ℕ → Router
router id xs k = record {
  router_id = id;
  flag = 0x53;
  producer_model = some (b'a' ∷ []);
  neighbors = slots_of xs k;
}

-- 1 → 2 → 3, and 3 → 1 twice.
abbrev three : List Router
three = router 1 (2 ∷ []) 9 ∷ router 2 (3 ∷ []) 9 ∷ router 3 (1 ∷ 1 ∷ []) 8 ∷ []

abbrev full_slots : List ℕ
full_slots = 1 ∷ 2 ∷ 3 ∷ 4 ∷ 5 ∷ 6 ∷ 7 ∷ 8 ∷ 9 ∷ 10 ∷ []

three-AllCompact : AllCompact three
three-AllCompact =
    ((2 ∷ [], 9, refl, refl), ((3 ∷ [], 9, refl, refl), ((1 ∷ 1 ∷ [], 8, refl, refl), tt)))

two_at : find_router_id three (pos 2) ≡ some 1
unfolding find_router_id
two_at = refl

add_link_appends_example :
    let (status, rs') = add_link three 2 1 in
    (status ≡ success)
    × (router_at rs' 1 ≡ record (router_at three 1) { neighbors = slots_of (3 ∷ 1 ∷ []) 8 })
    × ((j : ℕ) → 1 ≢ j → router_at rs' j ≡ router_at three j)
    × (length rs' ≡ length three)
add_link_appends_example = add_link_appends three 2 1 1 (3 ∷ []) 8 two_at refl

abbrev crowded : List Router
crowded = router 2 full_slots 0 ∷ []

crowded_at : find_router_id crowded (pos 2) ≡ some 0
unfolding find_router_id
crowded_at = refl

add_link_at_full_slots : add_link crowded 2 1 ≡ (failure, crowded)
add_link_at_full_slots = add_link_refuses crowded 2 1 0 (inr (full_slots, crowded_at, refl))

three_stay_compact : AllCompact (add_link three 2 1).1
three_stay_compact = add_link-AllCompact three 2 1 three-AllCompact

remove_reference-slots_of_example :
    remove_reference (pos 1) (slots_of (1 ∷ 2 ∷ 3 ∷ []) 7)
    ≡ some (slots_without (pos 1) (1 ∷ 2 ∷ 3 ∷ []) 7)
remove_reference-slots_of_example = remove_reference-slots_of (pos 1) (1 ∷ 2 ∷ 3 ∷ []) 7 refl

-- A second reference stays.
count-remove_reference_example :
    (s : List Slot) × (remove_reference (pos 1) (slots_of (1 ∷ 1 ∷ []) 8) ≡ some s)
    × (count (listed s) 1 ≡ count (1 ∷ 1 ∷ []) 1 - one_if (1 == 1))
count-remove_reference_example = count-remove_reference 1 1 (1 ∷ 1 ∷ []) 8 refl

delete_router_removes_example :
    delete_router (λ n. true) three (pos 2)
    ≡ (if true then success else failure, swap_remove (map (strip (pos 2)) three) 1 no_router)
delete_router_removes_example =
    delete_router_removes (λ n. true) three (pos 2) 1 three-AllCompact two_at
      (λ z. absurd (omega arith))

-- Router 1 stays without its model, and router 2 is lost.
abbrev couple : List Router
couple = router 1 (2 ∷ []) 9 ∷ router 2 [] 10 ∷ []

couple-AllCompact : AllCompact couple
couple-AllCompact = ((2 ∷ [], 9, refl, refl), (([], 10, refl, refl), tt))

delete_router_first_of_two_example :
    (delete_router (λ n. true) couple (pos 1)).1
    ≡ record (strip (pos 1) (router 1 (2 ∷ []) 9)) { producer_model = none } ∷ []
delete_router_first_of_two_example =
    delete_router_first_of_two (λ n. true) couple (pos 1) (router 1 (2 ∷ []) 9) (router 2 [] 10)
      refl couple-AllCompact refl

set_flag_accepts_example :
    let (status, rs') = set_flag three (pos 2) (pos 3) (pos 1) in
    ((status ≡ success)
      ↔ (Takes (pos 3) (pos 1) × (i : ℕ) × (find_router_id three (pos 2) ≡ some i)))
    × ((status ≡ success) ⊎ ((status ≡ failure) × (rs' ≡ three)))
set_flag_accepts_example = set_flag_accepts three (pos 2) (pos 3) (pos 1)

set_flag-print_router_example :
    let (status, rs') = set_flag three (pos 2) (pos 2) (pos 1) in
    let before = report (pos 2) (router_at three 1) in
    (shown : Report) × (status ≡ success)
    × (print_router rs' (pos 2) ≡ some shown)
    × (shown.active ≡ (if 0 == 2 then 1 == 1 else before.active))
    × (shown.wireless ≡ (if 1 == 2 then 1 == 1 else before.wireless))
    × (shown.five_ghz ≡ (if 2 == 2 then 1 == 1 else before.five_ghz))
    × (shown.modification_number ≡ before.modification_number)
set_flag-print_router_example =
    set_flag-print_router three (pos 2) 1 two_at 2 1 (omega arith) (omega arith) (omega arith)

set_flag_4-print_router_example :
    let (status, rs') = set_flag three (pos 2) (pos 4) (pos 13) in
    let before = report (pos 2) (router_at three 1) in
    (shown : Report) × (status ≡ success)
    × (print_router rs' (pos 2) ≡ some shown)
    × (shown.modification_number ≡ 13)
    × (shown.active ≡ before.active)
    × (shown.wireless ≡ before.wireless)
    × (shown.five_ghz ≡ before.five_ghz)
set_flag_4-print_router_example =
    set_flag_4-print_router three (pos 2) 1 two_at 13 (omega arith) (omega arith)

-- A pair of routers that list each other.
abbrev pub mutual_pair : List Router
mutual_pair = router 1 (2 ∷ []) 9 ∷ router 2 (1 ∷ []) 9 ∷ []

-- Links that are checked router by router.
AllKnown-of_routers :
    (rs : List Router)
    → All (λ r. (b : ℕ) → Listed b (listed r.neighbors) → Known rs b) rs
    → AllKnown rs
AllKnown-of_routers rs h a b (i, found, l) =
    All-get_or (λ r. (c : ℕ) → Listed c (listed r.neighbors) → Known rs c) rs i no_router h
      (find_router_id-lt rs (pos a) i found) b l

pub pair_at : (b : ℕ) → (1 ≡ b) ⊎ (2 ≡ b) → Known mutual_pair b
unfolding find_router_id
pair_at b (inl e) = subst (Known mutual_pair) e (0, refl)
pair_at b (inr e) = subst (Known mutual_pair) e (1, refl)

pub mutual_pair-AllKnown : AllKnown mutual_pair
mutual_pair-AllKnown = AllKnown-of_routers mutual_pair (
  λ b l. elim l [ inl e ↦ pair_at b (inr e) | inr n ↦ absurd n ],
  (λ b l. elim l [ inl e ↦ pair_at b (inl e) | inr n ↦ absurd n ], tt),
)

exists_route_decides_example :
    (b : Bool) × (exists_route true mutual_pair 1 2 ≡ some (some b))
    × ((b ≡ true) ↔ Route mutual_pair 1 2)
exists_route_decides_example =
    exists_route_decides mutual_pair 1 2 mutual_pair-AllKnown (pair_at 1 (inl refl))

-- A cycle is searched to its end.
exists_route-cycle :
    (exists_route true mutual_pair 1 2 ≡ some (some true))
    × (exists_route true mutual_pair 1 9 ≡ some (some false))
    × (exists_route true three 9 1 ≡ some none)
unfolding exists_route find_router_id
exists_route-cycle = (refl, refl, refl)

delete_router-three :
    delete_router (λ n. true) three (pos 1)
    ≡ (success, router 3 (1 ∷ []) 9 ∷ router 2 (3 ∷ []) 9 ∷ [])
unfolding delete_router find_router_id find_free_neighbor
delete_router-three = refl

set_model_sets_example :
    (after : List Router) × (set_model true true three (pos 2) (65 ∷ []) ≡ (success, after))
    × ((j : ℕ)
        → router_at after j ≡ (
            if 1 == j
            then record (router_at three 1) { producer_model = some (65 ∷ []) }
            else router_at three j))
    × ((other : ℤ) → find_router_id after other ≡ find_router_id three other)
set_model_sets_example = set_model_sets three (pos 2) 1 (65 ∷ []) two_at

nine_missing : find_router_id three (pos 9) ≡ none
unfolding find_router_id
nine_missing = refl

set_model_of_unknown : set_model true false three (pos 9) (65 ∷ []) ≡ (failure, three)
set_model_of_unknown = set_model_refuses true false three (pos 9) (65 ∷ []) (inl nine_missing)

exists_route_returns_example : (result : Option Bool) × (exists_route true three 1 3 ≡ some result)
exists_route_returns_example = exists_route_returns three 3 true 1
