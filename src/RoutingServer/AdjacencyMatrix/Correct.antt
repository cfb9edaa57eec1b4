-- ===== src/RoutingServer/AdjacencyMatrix/Correct.antt =====
-- adjacency_matrix.c: what stands in each place of the matrix.
use in_lib.Base.{
  some_inj, ℕ, zero, suc, ◌<◌, ◌≡◌, refl, sym, ap, ◌∙◌, subst, Bool, true, false, ◌&&◌, ◌||◌, none,
  some, List, [], ◌∷◌, arith, ◌==◌, ==_iff, if◌then◌else◌, length, get_or, set, replicate,
  bind-eq-some, Bool-cases, inl, inr, get_or-set, length-set, get_or-replicate,
  get_or-replicate_same, length-replicate,
}
use in_lib.RoutingServer.Network.{
  Edge, EdgeArray, Node, Neighbor, IndexToAddress, get_index_from_address,
  get_index_from_address_lem,
}
use in_lib.RoutingServer.Dijkstra.{Matrix, row, weight}
use in_lib.RoutingServer.AdjacencyMatrix.{
  set_weight, fill_neighbors, fill_nodes, remove_edges, create_adjacency_matrix,
}

-- An n x n matrix.
abbrev pub IsSquare : ℕ → Matrix → Type 0
IsSquare n m = (length m ≡ n) × ((i : ℕ) → i < n → length (row m i) ≡ n)

-- Whether a map has an address at an index first.
abbrev pub stands_at : IndexToAddress → ℕ → ℕ → Bool
stands_at index_to_address address i = elim (get_index_from_address address index_to_address) [
  | none ↦ false
  | some k ↦ k == i
]

-- The last weight that node `i` has in its reports for `j`, and `w` if it has none.
abbrev pub neighbors_weight : IndexToAddress → ℕ → List Neighbor → ℕ → ℕ → ℕ → ℕ
neighbors_weight map address [] i j w = w
neighbors_weight map address (nb ∷ nbs) i j w =
    neighbors_weight map address nbs i j
      (if stands_at map address i && stands_at map nb.address j then nb.weight else w)

abbrev pub nodes_weight : IndexToAddress → List Node → ℕ → ℕ → ℕ → ℕ
nodes_weight map [] i j w = w
nodes_weight map (node ∷ nodes) i j w =
    nodes_weight map nodes i j (neighbors_weight map node.address node.neighbors i j w)

-- Whether an invalid edge joins the two indices, in either direction.
abbrev pub is_removed : IndexToAddress → List Edge → ℕ → ℕ → Bool
is_removed map [] i j = false
is_removed map (e ∷ es) i j =
    is_removed map es i j
    || (stands_at map e.low_node_address i && stands_at map e.high_node_address j)
    || (stands_at map e.low_node_address j && stands_at map e.high_node_address i)

row-set_weight :
    (n : ℕ) (m : Matrix) (a b w i : ℕ)
    → IsSquare n m
    → a < n
    → row (set_weight m a b w) i ≡ (if a == i then set (row m a) b w else row m i)
unfolding set_weight
row-set_weight n m a b w i sq below =
    get_or-set m a i (set (row m a) b w) [] (omega (arith, sq.0, below))

pub set_weight-IsSquare :
    (n : ℕ) (m : Matrix) (a b w : ℕ) → IsSquare n m → a < n → IsSquare n (set_weight m a b w)
unfolding set_weight
set_weight-IsSquare n m a b w sq below = (
  length-set m a (set (row m a) b w) ∙ sq.0,
  λ i i_below. ap length (row-set_weight n m a b w i sq below) ∙ elim (Bool-cases (a == i)) [
    | inl same ↦ rw same (length-set (row m a) b w ∙ sq.1 a below)
    | inr other ↦ rw other (sq.1 i i_below)
  ],
)

pub weight-set_weight :
    (n : ℕ) (m : Matrix) (a b w i j : ℕ)
    → IsSquare n m
    → a < n
    → b < n
    → weight (set_weight m a b w) i j ≡ (if (a == i) && (b == j) then w else weight m i j)
weight-set_weight n m a b w i j sq a_below b_below =
    ap (λ r. get_or r j 0) (row-set_weight n m a b w i sq a_below) ∙ elim (Bool-cases (a == i)) [
      | inl same ↦ rw same (
          get_or-set (row m a) b j w 0 (omega (arith, sq.1 a a_below, b_below))
          ∙ ap (λ k. if b == j then w else weight m k j) ((==_iff a i).0 same))
      | inr other ↦ rw other refl
    ]

pub weight-zeros : (n k i j : ℕ) → weight (replicate k (replicate n 0)) i j ≡ 0
weight-zeros n zero i j = refl
weight-zeros n (suc k) zero j = get_or-replicate_same n j 0
weight-zeros n (suc k) (suc i) j = weight-zeros n k i j

pub zeros-IsSquare : (n : ℕ) → IsSquare n (replicate n (replicate n 0))
zeros-IsSquare n = (
  length-replicate n (replicate n 0),
  λ i below. ap length (get_or-replicate n i (replicate n 0) [] below) ∙ length-replicate n 0,
)

at_index :
    (map : IndexToAddress) (address i k : ℕ)
    → get_index_from_address address map ≡ some k
    → stands_at map address i ≡ (k == i)
at_index map address i k h = ap (λ o. elim o [ none ↦ false | some n ↦ n == i ]) h

-- After the loop over the neighbors of one node.
fill_neighbors_lem :
    (map : IndexToAddress) (address a : ℕ) (nbs : List Neighbor) (m after : Matrix)
    → IsSquare (length map) m
    → get_index_from_address address map ≡ some a
    → fill_neighbors map a nbs m ≡ some after
    → IsSquare (length map) after
      × ((i j : ℕ) → weight after i j ≡ neighbors_weight map address nbs i j (weight m i j))
unfolding fill_neighbors
fill_neighbors_lem map address a [] m after sq at ran =
    let same = some_inj ran in
    (subst (IsSquare (length map)) same sq, λ i j. ap (λ x. weight x i j) (sym same))
fill_neighbors_lem map address a (nb ∷ nbs) m after sq at ran =
    let (b, at_b, rest) = bind-eq-some (get_index_from_address nb.address map) _ after ran in
    let a_in = (get_index_from_address_lem address map a at).0 in
    let b_in = (get_index_from_address_lem nb.address map b at_b).0 in
    let (sq', then_rest) =
      fill_neighbors_lem map address a nbs (set_weight m a b nb.weight) after
        (set_weight-IsSquare (length map) m a b nb.weight sq a_in) at rest in
    (
      sq',
      λ i j.
          then_rest i j
          ∙ ap (neighbors_weight map address nbs i j) (
              weight-set_weight (length map) m a b nb.weight i j sq a_in b_in
              ∙ rw (at_index map address i a at, at_index map nb.address j b at_b) refl),
    )

fill_nodes_lem :
    (map : IndexToAddress) (nodes : List Node) (m after : Matrix)
    → IsSquare (length map) m
    → fill_nodes map nodes m ≡ some after
    → IsSquare (length map) after
      × ((i j : ℕ) → weight after i j ≡ nodes_weight map nodes i j (weight m i j))
unfolding fill_nodes
fill_nodes_lem map [] m after sq ran =
    let same = some_inj ran in
    (subst (IsSquare (length map)) same sq, λ i j. ap (λ x. weight x i j) (sym same))
fill_nodes_lem map (node ∷ nodes) m after sq ran =
    let (a, at, filled) = bind-eq-some (get_index_from_address node.address map) _ after ran in
    let (mid, first, rest) = bind-eq-some (fill_neighbors map a node.neighbors m) _ after filled in
    let (sq', at_mid) = fill_neighbors_lem map node.address a node.neighbors m mid sq at first in
    let (sq'', then_rest) = fill_nodes_lem map nodes mid after sq' rest in
    (sq'', λ i j. then_rest i j ∙ ap (nodes_weight map nodes i j) (at_mid i j))

if_or :
    (a b c d e : Bool) (w : ℕ)
    → (if e then 0 else (if a && b then 0 else (if c && d then 0 else w)))
      ≡ (if e || (c && d) || (b && a) then 0 else w)
if_or a b c d true w = refl
if_or true true true true false w = refl
if_or true true true false false w = refl
if_or true true false d false w = refl
if_or true false true true false w = refl
if_or true false true false false w = refl
if_or true false false d false w = refl
if_or false true true true false w = refl
if_or false true true false false w = refl
if_or false true false d false w = refl
if_or false false true true false w = refl
if_or false false true false false w = refl
if_or false false false d false w = refl

remove_edges_lem :
    (map : IndexToAddress) (es : List Edge) (m after : Matrix)
    → IsSquare (length map) m
    → remove_edges map es m ≡ some after
    → (i j : ℕ) → weight after i j ≡ (if is_removed map es i j then 0 else weight m i j)
unfolding remove_edges
remove_edges_lem map [] m after sq ran i j =
    ap (λ o. elim o [ none ↦ 0 | some x ↦ weight x i j ]) (sym ran)
remove_edges_lem map (e ∷ es) m after sq ran i j =
    let (a, at_a, then_b) =
      bind-eq-some (get_index_from_address e.low_node_address map) _ after ran in
    let (b, at_b, rest) =
      bind-eq-some (get_index_from_address e.high_node_address map) _ after then_b in
    let a_in = (get_index_from_address_lem e.low_node_address map a at_a).0 in
    let b_in = (get_index_from_address_lem e.high_node_address map b at_b).0 in
    let n = length map in
    let one = set_weight-IsSquare n m a b 0 sq a_in in
    remove_edges_lem map es (set_weight (set_weight m a b 0) b a 0) after
      (set_weight-IsSquare n (set_weight m a b 0) b a 0 one b_in) rest i j
    ∙ ap (λ w. if is_removed map es i j then 0 else w)
        (weight-set_weight n (set_weight m a b 0) b a 0 i j one b_in a_in
          ∙ ap (λ w. if (b == i) && (a == j) then 0 else w)
              (weight-set_weight n m a b 0 i j sq a_in b_in))
    ∙ rw
        (
          at_index map e.low_node_address i a at_a,
          at_index map e.low_node_address j a at_a,
          at_index map e.high_node_address i b at_b,
          at_index map e.high_node_address j b at_b,
        )
        (if_or (b == i) (a == j) (a == i) (b == j) (is_removed map es i j) (weight m i j))

-- With a map of as many addresses as there are nodes, the matrix that is delivered has 0 between
-- the ends of every invalid edge, in both directions; elsewhere it has the last weight that the
-- node at the row reported for the node at the column, and 0 if it reported none.
pub weight-create_adjacency_matrix :
    (allocated : Bool) (node_array : List Node) (index_to_address : IndexToAddress)
    (invalid : EdgeArray) (m : Matrix)
    → length node_array ≡ length index_to_address
    → create_adjacency_matrix allocated node_array index_to_address invalid ≡ some m
    → (i j : ℕ)
    → weight m i j ≡ (
        if is_removed index_to_address invalid.array i j
        then 0
        else nodes_weight index_to_address node_array i j 0)
unfolding create_adjacency_matrix
weight-create_adjacency_matrix false node_array map invalid m same ran i j = cc
weight-create_adjacency_matrix true node_array map invalid m same ran i j =
    let n = length node_array in
    let zeros = replicate n (replicate n 0) in
    let (filled, first, rest) = bind-eq-some (fill_nodes map node_array zeros) _ m ran in
    let sq = subst (λ k. IsSquare k zeros) same (zeros-IsSquare n) in
    let (sq', at) = fill_nodes_lem map node_array zeros filled sq first in
    remove_edges_lem map invalid.array filled m sq' rest i j
    ∙ ap (λ w. if is_removed map invalid.array i j then 0 else w)
        (at i j ∙ ap (nodes_weight map node_array i j) (weight-zeros n n i j))
