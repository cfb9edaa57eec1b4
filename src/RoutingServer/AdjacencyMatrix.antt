-- ===== src/RoutingServer/AdjacencyMatrix.antt =====
-- home_exam/routing_server/src/adjacency_matrix.c: the definitions. The map has an entry for each
-- of the n rows, so that an index that is found is one of the matrix.
pub mod Correct
mod Tests
use in_lib.Base.{
  ℕ, Bool, not, Option, none, some, List, [], ◌∷◌, if◌then◌else◌, get_or, set, replicate, ◌>>=◌,
  length,
}
use in_lib.RoutingServer.Network.{
  Edge, EdgeArray, Node, Neighbor, IndexToAddress, get_index_from_address,
}
use in_lib.RoutingServer.Dijkstra.{Matrix, row}

-- `adjacencyMatrix[i][j] = w`.
unfoldable pub set_weight : Matrix → ℕ → ℕ → ℕ → Matrix
set_weight m i j w = set m i (set (row m i) j w)

-- The loop over the neighbors of the node at `first_index`.
unfoldable pub fill_neighbors : IndexToAddress → ℕ → List Neighbor → Matrix → Option Matrix
fill_neighbors index_to_address first_index [] m = some m
fill_neighbors index_to_address first_index (nb ∷ nbs) m =
    get_index_from_address nb.address index_to_address >>= λ second_index.
    fill_neighbors index_to_address first_index nbs
      (set_weight m first_index second_index nb.weight)

unfoldable pub fill_nodes : IndexToAddress → List Node → Matrix → Option Matrix
unfolding fill_neighbors
fill_nodes index_to_address [] m = some m
fill_nodes index_to_address (node ∷ nodes) m =
    get_index_from_address node.address index_to_address >>= λ first_index.
    fill_neighbors index_to_address first_index node.neighbors m
    >>= fill_nodes index_to_address nodes

-- The loop over the invalid edges.
unfoldable pub remove_edges : IndexToAddress → List Edge → Matrix → Option Matrix
unfolding set_weight
remove_edges index_to_address [] m = some m
remove_edges index_to_address (e ∷ es) m =
    get_index_from_address e.low_node_address index_to_address >>= λ first_index.
    get_index_from_address e.high_node_address index_to_address >>= λ second_index.
    remove_edges index_to_address es
      (set_weight (set_weight m first_index second_index 0) second_index first_index 0)

-- `allocated` says whether the memory for the matrix was given; it is set to 0.
unfoldable pub create_adjacency_matrix :
    Bool → List Node → IndexToAddress → EdgeArray → Option Matrix
unfolding fill_nodes remove_edges
create_adjacency_matrix allocated node_array index_to_address invalid =
    let n = length node_array in
    if not allocated
    then none
    else fill_nodes index_to_address node_array (replicate n (replicate n 0))
      >>= remove_edges index_to_address invalid.array
