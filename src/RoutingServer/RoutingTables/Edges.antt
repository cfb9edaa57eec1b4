-- ===== src/RoutingServer/RoutingTables/Edges.antt =====
-- `printEdges` of home_exam/routing_server/src/route.c: the lines that it prints, as values.
use in_lib.Base.{
  ℕ, zero, suc, ◌+◌, ◌<◌, ◌≡◌, refl, Option, none, some, List, [], ◌∷◌, ◌++◌, ◌==◌, if◌then◌else◌,
  arith, length, get_or, Listed, inl, inr, Bool-cases, ◌⊎◌,
}
use in_lib.RoutingServer.Network.{IndexToAddress}
use in_lib.RoutingServer.Dijkstra.{Route}

-- The arguments of `print_weighted_edge`; the length `none` is -1.
pub record WeightedEdge : Type 0 where
  pub from_address : ℕ
  pub to_address : ℕ
  pub path_len : Option ℕ

-- The search for the node on the route, with the node's distance.
unfoldable pub path_len : ℕ → ℕ → Route → Option ℕ
path_len distance from_node [] = none
path_len distance from_node (x ∷ route) =
    let rest = path_len distance from_node route in if x == from_node then some distance else rest

-- The inner loop, from toNode on.
unfoldable pub print_row : List ℕ → IndexToAddress → ℕ → ℕ → List Route → List WeightedEdge
unfolding path_len
print_row distances addresses from_node to_node [] = []
print_row distances addresses from_node to_node (route ∷ routes) =
    record {
      from_address = get_or addresses from_node 0;
      to_address = get_or addresses to_node 0;
      path_len = path_len (get_or distances from_node 0) from_node route;
    }
    ∷ print_row distances addresses from_node (suc to_node) routes

-- The outer loop, with `left` rounds to go.
unfoldable pub print_rows : List ℕ → IndexToAddress → List Route → ℕ → ℕ → List WeightedEdge
unfolding print_row
print_rows distances addresses routes from_node zero = []
print_rows distances addresses routes from_node (suc left) =
    print_row distances addresses from_node 0 routes
    ++ print_rows distances addresses routes (suc from_node) left

unfoldable pub print_edges : List ℕ → List Route → IndexToAddress → List WeightedEdge
unfolding print_rows
print_edges distances routes addresses = print_rows distances addresses routes 0 (length routes)

path_len-cases :
    (distance from_node : ℕ) (route : Route)
    → (Listed from_node route × (path_len distance from_node route ≡ some distance))
      ⊎ ((Listed from_node route → ⊥) × (path_len distance from_node route ≡ none))
unfolding path_len
path_len-cases distance from_node [] = inr (λ l. elim l [ ], refl)
path_len-cases distance from_node (x ∷ route) = elim (Bool-cases (x == from_node)) [
  | inl same ↦ inl (inl (ground (arith, same)), rw (path_len, same) refl)
  | inr other ↦ elim (path_len-cases distance from_node route) [
    | inl (on, found) ↦ inl (inr on, rw (path_len, other) found)
    | inr (off, missing) ↦ inr (
      λ l. elim l [ inl e ↦ absurd (ground (arith, other, e)) | inr on ↦ off on ],
      rw (path_len, other) missing,
    )
  ]
]

module _ (distances : List ℕ) (addresses : IndexToAddress) (from_node : ℕ) where
  print_row-at :
      (routes : List Route) (start k : ℕ) (d : WeightedEdge)
      → k < length routes
      → get_or (print_row distances addresses from_node start routes) k d ≡ record {
        from_address = get_or addresses from_node 0;
        to_address = get_or addresses (start + k) 0;
        path_len = path_len (get_or distances from_node 0) from_node (get_or routes k []);
      }
  unfolding print_row
  print_row-at [] start k d h = absurd (omega (arith, h))
  print_row-at (route ∷ routes) start zero d h =
      let same : start + 0 ≡ start = omega arith in rw same refl
  print_row-at (route ∷ routes) start (suc k) d h =
      let same : suc start + k ≡ start + suc k = omega arith in
      rw (← same) (print_row-at routes (suc start) k d (omega (arith, h)))

  -- In the lines for a node, line k is for the node k, and has the distance of the first node if that
  -- lies on the route to node k; otherwise it has -1.
  pub print_row-Listed :
      (routes : List Route) (k : ℕ) (d : WeightedEdge)
      → k < length routes
      → let line = get_or (print_row distances addresses from_node 0 routes) k d in
        (line.from_address ≡ get_or addresses from_node 0)
        × (line.to_address ≡ get_or addresses k 0)
        × ((Listed from_node (get_or routes k [])
              × (line.path_len ≡ some (get_or distances from_node 0)))
            ⊎ ((Listed from_node (get_or routes k []) → ⊥) × (line.path_len ≡ none)))
  print_row-Listed routes k d h =
      let at = print_row-at routes 0 k d h in
      let same : 0 + k ≡ k = omega arith in
      rw (at, same)
        (refl, refl, path_len-cases (get_or distances from_node 0) from_node (get_or routes k []))
