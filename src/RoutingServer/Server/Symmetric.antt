-- ===== src/RoutingServer/Server/Symmetric.antt =====
-- adjacency_matrix.c after validation.c: the matrix is symmetric, as `dijkstra` needs it.
use in_lib.Base.{
  some_inj, ℕ, ◌≡◌, refl, sym, ap, ◌∙◌, subst, Bool, true, false, ◌&&◌, ◌||◌, some, List, [], ◌∷◌,
  map, arith, ◌==◌, ==_iff, if◌then◌else◌, length-map, get_or, Bool-cases, Option-cases, ◌⊎◌, inl,
  inr,
}
use in_lib.RoutingServer.Network.{
  Edge, EdgeArray, Node, Neighbor, IndexToAddress, get_index_from_address,
  get_index_from_address_lem,
}
use in_lib.RoutingServer.Validation.{same_edge, edge_of, is_edge_present, check_all_nodes_received}
use in_lib.RoutingServer.Validation.Reports.{reports, about, is_bad}
use in_lib.RoutingServer.Validation.Correct.{check_all_nodes_received_marks}
use in_lib.RoutingServer.AdjacencyMatrix.{create_adjacency_matrix}
use in_lib.RoutingServer.AdjacencyMatrix.Correct.{
  stands_at, neighbors_weight, nodes_weight, is_removed, weight-create_adjacency_matrix,
}
use in_lib.RoutingServer.Dijkstra.{Matrix}
use in_lib.RoutingServer.Dijkstra.Walk.{IsSymmetric}
use in_lib.RoutingServer.Server.Weights.{stands_at_lem, nodes_weight_lem, last_from_comm}

swap_or : (a b c : Bool) → ((a || b) || c) ≡ ((a || c) || b)
swap_or true b c = refl
swap_or false true true = refl
swap_or false true false = refl
swap_or false false true = refl
swap_or false false false = refl

is_removed_comm :
    (map : IndexToAddress) (es : List Edge) (i j : ℕ)
    → is_removed map es i j ≡ is_removed map es j i
is_removed_comm map [] i j = refl
is_removed_comm map (e ∷ es) i j =
    let one_way = stands_at map e.low_node_address i && stands_at map e.high_node_address j in
    let other_way = stands_at map e.low_node_address j && stands_at map e.high_node_address i in
    ap (λ b. b || one_way || other_way) (is_removed_comm map es i j)
    ∙ swap_or (is_removed map es j i) one_way other_way

ends_or :
    (x : Bool) (a b : ℕ) (e : Edge)
    → same_edge e (edge_of a b) ≡ true
    → (x
        || ((e.low_node_address == a) && (e.high_node_address == b))
        || ((e.low_node_address == b) && (e.high_node_address == a)))
      ≡ true
unfolding same_edge edge_of
ends_or true a b e same = refl
ends_or false a b e same = ground arith

-- An edge that is present is removed at the places of its two ends.
is_removed-present :
    (map : IndexToAddress) (a b i j : ℕ)
    → get_index_from_address a map ≡ some i
    → get_index_from_address b map ≡ some j
    → (es : List Edge) → is_edge_present (edge_of a b) es ≡ true
    → is_removed map es i j ≡ true
unfolding is_edge_present edge_of
is_removed-present map a b i j at_i at_j [] h = cc
is_removed-present map a b i j at_i at_j (e ∷ es) h =
    elim (Bool-cases (same_edge e (edge_of a b))) [
      | inl same ↦
          rw
            (
              stands_at_lem map a i at_i e.low_node_address,
              stands_at_lem map b j at_j e.high_node_address,
              stands_at_lem map b j at_j e.low_node_address,
              stands_at_lem map a i at_i e.high_node_address,
            )
            (ends_or (is_removed map es i j) a b e same)
      | inr other ↦ rw (is_removed-present map a b i j at_i at_j es (rw other at h)) refl
    ]

nothing : (s : Bool) (v w : ℕ) → (if s && false then v else w) ≡ w
nothing true v w = refl
nothing false v w = refl

-- An index that no address has first: its row and its column are empty.
module _ (map : IndexToAddress) (i : ℕ) (hidden : (x : ℕ) → stands_at map x i ≡ false) where
  neighbors_weight-row :
      (x : ℕ) (nbs : List Neighbor) (j w : ℕ) → neighbors_weight map x nbs i j w ≡ w
  neighbors_weight-row x [] j w = refl
  neighbors_weight-row x (nb ∷ nbs) j w = rw (hidden x) (neighbors_weight-row x nbs j w)

  nodes_weight-row : (nodes : List Node) (j w : ℕ) → nodes_weight map nodes i j w ≡ w
  nodes_weight-row [] j w = refl
  nodes_weight-row (node ∷ nodes) j w =
      nodes_weight-row nodes j _ ∙ neighbors_weight-row node.address node.neighbors j w

  neighbors_weight-column :
      (x : ℕ) (nbs : List Neighbor) (j w : ℕ) → neighbors_weight map x nbs j i w ≡ w
  neighbors_weight-column x [] j w = refl
  neighbors_weight-column x (nb ∷ nbs) j w =
      ap (neighbors_weight map x nbs j i)
        (rw (hidden nb.address) (nothing (stands_at map x j) nb.weight w))
      ∙ neighbors_weight-column x nbs j w

  nodes_weight-column : (nodes : List Node) (j w : ℕ) → nodes_weight map nodes j i w ≡ w
  nodes_weight-column [] j w = refl
  nodes_weight-column (node ∷ nodes) j w =
      nodes_weight-column nodes j _ ∙ neighbors_weight-column node.address node.neighbors j w

stands_at-some :
    (map : IndexToAddress) (x i : ℕ)
    → stands_at map x i ≡ true
    → get_index_from_address x map ≡ some i
stands_at-some map x i h = elim (Option-cases (get_index_from_address x map)) [
  | inl nowhere ↦ absurd (let clash = rw (stands_at, nowhere) at h in cc)
  | inr (k, found) ↦ found ∙ ap some ((==_iff k i).0 (rw (stands_at, found) at h))
]

-- An index has an address first, or none.
first-cases :
    (map : IndexToAddress) (i : ℕ)
    → ((a : ℕ) × (get_index_from_address a map ≡ some i)) ⊎ ((x : ℕ) → stands_at map x i ≡ false)
first-cases map i = elim (Bool-cases (stands_at map (get_or map i 0) i)) [
  | inl first ↦ inl (get_or map i 0, stands_at-some map (get_or map i 0) i first)
  | inr hidden ↦ inr λ x. elim (Bool-cases (stands_at map x i)) [
    | inl at ↦ absurd (
        let found = stands_at-some map x i at in
        let same = (get_index_from_address_lem x map i found).1 in
        let here = subst (λ y. stands_at map y i ≡ true) (sym same) at in cc)
    | inr off ↦ off
  ]
]

-- Where the reports about an edge are good, both ends have the same weight.
nodes_weight_comm :
    (map : IndexToAddress) (nodes : List Node) (i j : ℕ)
    → ((a b : ℕ)
        → get_index_from_address a map ≡ some i
        → get_index_from_address b map ≡ some j
        → is_bad (about (edge_of a b) (reports nodes)) ≡ false)
    → nodes_weight map nodes i j 0 ≡ nodes_weight map nodes j i 0
nodes_weight_comm map nodes i j good = elim (first-cases map i) [
  | inr hidden ↦
      nodes_weight-row map i hidden nodes j 0 ∙ sym (nodes_weight-column map i hidden nodes j 0)
  | inl (a, at_i) ↦ elim (first-cases map j) [
    | inr hidden ↦
        nodes_weight-column map j hidden nodes i 0 ∙ sym (nodes_weight-row map j hidden nodes i 0)
    | inl (b, at_j) ↦ elim (Bool-cases (i == j)) [
      | inl same ↦
          ap (λ k. nodes_weight map nodes i k 0) (sym ((==_iff i j).0 same))
          ∙ ap (λ k. nodes_weight map nodes k i 0) ((==_iff i j).0 same)
      | inr apart ↦
          nodes_weight_lem map a b i j at_i at_j nodes 0
          ∙ last_from_comm a b nodes
              (λ same.
                let both = ap (λ x. get_index_from_address x map) same in
                let eq = some_inj (sym at_i ∙ both ∙ at_j) in let clash = (==_iff i j).1 eq in cc)
              (good a b at_i at_j)
          ∙ sym (nodes_weight_lem map b a j i at_j at_i nodes 0)
    ]
  ]
]

-- The matrix that is made after a successful check of the edges is symmetric, whatever the nodes
-- have reported.
pub create_adjacency_matrix-IsSymmetric :
    (node_array : List Node) (max_edges : ℕ) (invalid : EdgeArray) (m : Matrix)
    → check_all_nodes_received true node_array (record { array = []; max_edges = max_edges })
      ≡ some invalid
    → create_adjacency_matrix true node_array (map (λ (x : Node). x.address) node_array) invalid
      ≡ some m
    → IsSymmetric m
unfolding is_edge_present
create_adjacency_matrix-IsSymmetric nodes max_edges invalid m checked made i j =
    let table = map (λ (x : Node). x.address) nodes in
    let at =
      weight-create_adjacency_matrix true nodes table invalid m
        (sym (length-map (λ (x : Node). x.address) nodes)) made in
    at i j
    ∙ elim (Bool-cases (is_removed table invalid.array i j)) [
      | inl removed ↦ rw (removed, sym (is_removed_comm table invalid.array i j) ∙ removed) refl
      | inr kept ↦
          rw (kept, sym (is_removed_comm table invalid.array i j) ∙ kept)
            (nodes_weight_comm table nodes i j λ a b at_i at_j.
              elim (Bool-cases (is_edge_present (edge_of a b) invalid.array)) [
                | inl present ↦ absurd (
                    let clash = is_removed-present table a b i j at_i at_j invalid.array present in
                    cc)
                | inr absent ↦
                    sym (
                      check_all_nodes_received_marks true nodes
                        (record { array = []; max_edges = max_edges }) invalid checked
                        (edge_of a b))
                    ∙ absent
              ])
    ]
    ∙ sym (at j i)
