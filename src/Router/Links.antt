-- ===== src/Router/Links.antt =====
-- `addLink` of obligatory_assignment/src/router.c.
use in_lib.Base.{
  ℕ, zero, suc, ◌<◌, ◌≡◌, ◌≢◌, refl, none, some, List, [], ◌∷◌, ◌++◌, arith, length, set, Status,
  success, failure, get_or-set_self, get_or-set_ne, length-set, length-append, ◌⊎◌, All, All-get_or,
  All-set, Option-cases, inl, inr,
}
use in_lib.Base.Int.{pos}
use in_lib.Router.{
  Router, router_at, no_router, find_router_id, find_free_neighbor, find_router_id-lt,
}
use in_lib.Router.Slots.{
  slots_of, IsCompact, find_free_neighbor-slots_of, find_free_neighbor_full, set-slots_of_free,
}

-- The part of `addLink` behind the first test: `*hitIdx` is `i`.
unfoldable pub link_at : List Router → ℕ → ℕ → Status × List Router
link_at rs i to_router =
    let r = router_at rs i in
    elim (find_free_neighbor r.neighbors) [
      | none ↦ (failure, rs)
      | some j ↦ (success, set rs i (record r { neighbors = set r.neighbors j (some to_router) }))
    ]

unfoldable pub add_link : List Router → ℕ → ℕ → Status × List Router
add_link rs from_router to_router = elim (find_router_id rs (pos from_router)) [
  | none ↦ (failure, rs)
  | some i ↦ link_at rs i to_router
]

pub link_at_free :
    (rs : List Router) (i to_router : ℕ) (xs : List ℕ) (k : ℕ)
    → (router_at rs i).neighbors ≡ slots_of xs (suc k)
    → link_at rs i to_router ≡ (
      success,
      set rs i (record (router_at rs i) { neighbors = slots_of (xs ++ to_router ∷ []) k }),
    )
unfolding link_at
link_at_free rs i to_router xs k free =
    rw (free, link_at) (rw find_free_neighbor-slots_of (rw (free, set-slots_of_free)))

link_at_full :
    (rs : List Router) (i to_router : ℕ) (xs : List ℕ)
    → (router_at rs i).neighbors ≡ slots_of xs 0
    → link_at rs i to_router ≡ (failure, rs)
unfolding link_at
link_at_full rs i to_router xs full = rw (full, link_at) (rw find_free_neighbor_full)

module _ (rs : List Router) (from_router to_router i : ℕ) where
  -- With a free slot the link is appended to the neighbors of the first router with the id, and no
  -- other router changes.
  pub add_link_appends :
      (xs : List ℕ) (k : ℕ)
      → find_router_id rs (pos from_router) ≡ some i
      → (router_at rs i).neighbors ≡ slots_of xs (suc k)
      → let (status, rs') = add_link rs from_router to_router in
        (status ≡ success)
        × (router_at rs' i
            ≡ record (router_at rs i) { neighbors = slots_of (xs ++ to_router ∷ []) k })
        × ((j : ℕ) → i ≢ j → router_at rs' j ≡ router_at rs j)
        × (length rs' ≡ length rs)
  unfolding add_link
  add_link_appends xs k found free =
      let lt = find_router_id-lt rs (pos from_router) i found in
      rw (found, add_link)
        (rw (link_at_free rs i to_router xs k free) (
          refl,
          get_or-set_self rs i _ no_router lt,
          λ j ne. get_or-set_ne rs i j _ no_router ne,
          length-set rs i _,
        ))

  -- `addLink` fails and changes nothing where no router has the id or all ten slots are used.
  pub add_link_refuses :
      (find_router_id rs (pos from_router) ≡ none)
        ⊎ (xs : List ℕ) × (find_router_id rs (pos from_router) ≡ some i)
          × ((router_at rs i).neighbors ≡ slots_of xs 0)
      → add_link rs from_router to_router ≡ (failure, rs)
  unfolding add_link
  add_link_refuses (inl missing) = rw (missing, add_link)
  add_link_refuses (inr (xs, found, full)) =
      rw (found, add_link) (link_at_full rs i to_router xs full)

-- Every router has compact slots.
abbrev pub AllCompact : List Router → Type 0
AllCompact = All (λ r. IsCompact r.neighbors)

link_at-AllCompact :
    (rs : List Router) (i to_router : ℕ)
    → i < length rs
    → AllCompact rs
    → AllCompact (link_at rs i to_router).1
link_at-AllCompact rs i to_router lt h =
    go (All-get_or (λ r. IsCompact r.neighbors) rs i no_router h lt)
  where
    go : IsCompact (router_at rs i).neighbors → AllCompact (link_at rs i to_router).1
    go (xs, zero, e, n) = rw (link_at_full rs i to_router xs e) h
    go (xs, suc k, e, n) = rw (link_at_free rs i to_router xs k e) (
        All-set (λ r. IsCompact r.neighbors) rs i _ h
          (xs ++ to_router ∷ [], k, refl, omega (arith, length-append xs (to_router ∷ []))))

-- `addLink` keeps the slots of every router compact, whether it succeeds or not.
pub add_link-AllCompact :
    (rs : List Router) (from_router to_router : ℕ)
    → AllCompact rs
    → AllCompact (add_link rs from_router to_router).1
unfolding add_link
add_link-AllCompact rs from_router to_router h =
    elim (Option-cases (find_router_id rs (pos from_router))) [
      | inl missing ↦ rw (missing, add_link) h
      | inr (i, found) ↦
          rw (found, add_link)
            (link_at-AllCompact rs i to_router (find_router_id-lt rs (pos from_router) i found) h)
    ]
