-- ===== src/Router/Search.antt =====
-- `existsRoute` and `DFS` of obligatory_assignment/src/router.c: the definitions. The ids are the
-- natural numbers that the callers pass, each an `unsigned char`.
pub mod Links
pub mod Run
pub mod Correct
pub mod Returns
use in_lib.Base.{
  ℕ, zero, suc, Bool, true, false, ◌||◌, Option, none, some, List, [], ◌∷◌, Status, success,
  failure, ◌==◌, if◌then◌else◌, length, set, replicate,
}
use in_lib.Base.Int.{pos}
use in_lib.Router.{Router, Slot, router_at, find_router_id}

-- What the recursive calls share: `*exists == 1`, and the array `visited` with -1 as `none`.
pub record State : Type 0 where
  pub found : Bool
  pub visited : List Slot

-- The two loops over `visited`: the id is met before the first free slot, or that slot is found, or
-- there is none.
pub data Scan : Type 0 where
  seen full : Scan
  free : ℕ → Scan

abbrev later : Scan → Scan
later seen = seen
later full = full
later (free i) = free (suc i)

unfoldable pub scan_visited : ℕ → List Slot → Scan
scan_visited id [] = full
scan_visited id (none ∷ v) = free 0
scan_visited id (some x ∷ v) = if x == id then seen else later (scan_visited id v)

-- What a call hands back; `none` means that the fuel ran out.
abbrev pub Outcome : Type 0
Outcome = Option (Status × State)

-- The loop over the neighbors of one router, `call` being the recursive call.
unfoldable pub for_neighbors : (ℕ → State → Outcome) → List Slot → State → Outcome
for_neighbors call [] s = some (success, s)
for_neighbors call (none ∷ ns) s = some (success, s)
for_neighbors call (some n ∷ ns) s = elim (call n s) [
  | none ↦ none
  | some (failure, s') ↦ some (failure, s')
  | some (success, s') ↦ if s'.found then some (success, s') else for_neighbors call ns s'
]

-- `DFS` behind the search in `visited`, at a free slot `i`.
unfoldable pub expand : List Router → (ℕ → State → Outcome) → ℕ → ℕ → State → Outcome
unfolding for_neighbors
expand rs call from_id i s =
    let s' = record s { visited = set s.visited i (some from_id) } in
    elim (find_router_id rs (pos from_id)) [
      | none ↦ some (failure, s')
      | some hit ↦ for_neighbors call (router_at rs hit).neighbors s'
    ]

-- What `DFS` does by what the scan found.
abbrev pub after_scan : (ℕ → State → Outcome) → State → Scan → Outcome
after_scan go_on s seen = some (success, s)
after_scan go_on s full = some (failure, s)
after_scan go_on s (free i) = go_on i s

unfoldable pub dfs : ℕ → List Router → ℕ → ℕ → State → Outcome
unfolding expand scan_visited
dfs zero rs to_id from_id s = none
dfs (suc fuel) rs to_id from_id s =
    if s.found || (from_id == to_id)
    then some (success, record s { found = true })
    else after_scan (expand rs (dfs fuel rs to_id) from_id) s (scan_visited from_id s.visited)

-- `existsRoute`: `malloc_ok` says whether `malloc` delivers the array. The first `none` is fuel, the
-- second EXIT_FAILURE; otherwise the result is `*exists == 1`. A call of `DFS` that finds a slot uses
-- it up, so one round more than there are slots is enough.
abbrev answer : Outcome → Option (Option Bool)
answer none = none
answer (some (failure, s)) = some none
answer (some (success, s)) = some (some s.found)

unfoldable pub exists_route : Bool → List Router → ℕ → ℕ → Option (Option Bool)
unfolding dfs
exists_route malloc_ok rs from_id to_id =
    if malloc_ok
    then answer (
        dfs (suc (length rs)) rs to_id from_id
          (record { found = false; visited = replicate (length rs) none }))
    else some none
