-- ===== src/RoutingServer/Server/Weights.antt =====
-- adjacency_matrix.c and validation.c: the weights of the matrix, read off the reports.
use in_lib.Base.{
  ℕ, ◌≡◌, ◌≢◌, refl, sym, ap, ◌∙◌, subst, Bool, true, false, ◌&&◌, some, List, [], ◌∷◌, ◌++◌, arith,
  ◌==◌, ==_iff, ltb, if◌then◌else◌, get_or, All, Bool-cases, Option-cases, ◌⊎◌, inl, inr,
}
use in_lib.RoutingServer.Network.{
  Edge, Node, Neighbor, IndexToAddress, get_index_from_address, get_index_from_address_lem,
}
use in_lib.RoutingServer.Validation.{same_edge, edge_of}
use in_lib.RoutingServer.Validation.Invalid.{same_edge→≡}
use in_lib.RoutingServer.Validation.Reports.{
  Report, report_of, reports_of_node, reports, about, is_bad,
}
use in_lib.RoutingServer.AdjacencyMatrix.Correct.{stands_at, neighbors_weight, nodes_weight}

-- The last weight that node `a` reports, and `w` if it reports none.
abbrev pub last_from : ℕ → List Report → ℕ → ℕ
last_from a [] w = w
last_from a (r ∷ rs) w = last_from a rs (if r.reporter == a then r.weight else w)

pub stands_at_lem :
    (map : IndexToAddress) (a i : ℕ)
    → get_index_from_address a map ≡ some i
    → (x : ℕ) → stands_at map x i ≡ (x == a)
stands_at_lem map a i at x = elim (Bool-cases (x == a)) [
  | inl same ↦
      let here =
        subst (λ y. get_index_from_address y map ≡ some i) (sym ((==_iff x a).0 same)) at in
      rw (stands_at, here, same) ((==_iff i i).1 refl)
  | inr other ↦ elim (Option-cases (get_index_from_address x map)) [
    | inl nowhere ↦ rw (stands_at, nowhere, other) refl
    | inr (k, found) ↦
        rw (stands_at, found, other)
          (elsewhere k (get_index_from_address_lem x map k found).1
            (get_index_from_address_lem a map i at).1 other)
  ]
]
  where
    elsewhere :
        (k : ℕ) → get_or map k 0 ≡ x → get_or map i 0 ≡ a → (x == a) ≡ false → (k == i) ≡ false
    elsewhere k at_k at_i other = elim (Bool-cases (k == i)) [
      | inl same ↦ ground (arith, other, at_k, at_i, ap (λ n. get_or map n 0) ((==_iff k i).0 same))
      | inr apart ↦ apart
    ]

-- Whether a report is one of `a` about `b`.
same_report :
    (a b x y : ℕ) → ((x == a) && (y == b)) ≡ ((x == a) && same_edge (edge_of x y) (edge_of a b))
unfolding same_edge edge_of
same_report a b x y = ground arith

last_from-append :
    (a : ℕ) (rs qs : List Report) (w : ℕ)
    → last_from a (rs ++ qs) w ≡ last_from a qs (last_from a rs w)
last_from-append a [] qs w = refl
last_from-append a (r ∷ rs) qs w = last_from-append a rs qs _

about-append : (e : Edge) (rs qs : List Report) → about e (rs ++ qs) ≡ about e rs ++ about e qs
about-append e [] qs = refl
about-append e (r ∷ rs) qs = elim (Bool-cases (same_edge r.edge e)) [
  | inl same ↦ rw same (ap (λ xs. r ∷ xs) (about-append e rs qs))
  | inr other ↦ rw other (about-append e rs qs)
]

-- What one report adds to the weight.
report_weight :
    (a b x y v w : ℕ)
    → (if (x == a) && (y == b) then v else w)
      ≡ (if same_edge (edge_of x y) (edge_of a b) then (if x == a then v else w) else w)
report_weight a b x y v w =
    ap (λ t. if t then v else w) (same_report a b x y)
    ∙ nested (x == a) (same_edge (edge_of x y) (edge_of a b))
  where
    nested : (s t : Bool) → (if s && t then v else w) ≡ (if t then (if s then v else w) else w)
    nested true true = refl
    nested true false = refl
    nested false true = refl
    nested false false = refl

module _ (map : IndexToAddress) (a b i j : ℕ) (at_i : get_index_from_address a map ≡ some i)
    (at_j : get_index_from_address b map ≡ some j) where
  neighbors_weight_lem :
      (x : ℕ) (nbs : List Neighbor) (w : ℕ)
      → neighbors_weight map x nbs i j w
        ≡ last_from a (about (edge_of a b) (reports_of_node x nbs)) w
  neighbors_weight_lem x [] w = refl
  neighbors_weight_lem x (nb ∷ nbs) w =
      rw (stands_at_lem map a i at_i x, stands_at_lem map b j at_j nb.address)
        (ap (neighbors_weight map x nbs i j) (report_weight a b x nb.address nb.weight w)
          ∙ neighbors_weight_lem x nbs _
          ∙ elim (Bool-cases (same_edge (edge_of x nb.address) (edge_of a b))) [
            | inl same ↦ rw same refl
            | inr other ↦ rw other refl
          ])

  -- The weight at a place is the last one that the node of the row reported of the edge.
  pub nodes_weight_lem :
      (nodes : List Node) (w : ℕ)
      → nodes_weight map nodes i j w ≡ last_from a (about (edge_of a b) (reports nodes)) w
  nodes_weight_lem [] w = refl
  nodes_weight_lem (node ∷ nodes) w =
      ap (nodes_weight map nodes i j) (neighbors_weight_lem node.address node.neighbors w)
      ∙ nodes_weight_lem nodes _
      ∙ sym (
          last_from-append a (about (edge_of a b) (reports_of_node node.address node.neighbors))
            (about (edge_of a b) (reports nodes)) w)
      ∙ ap (λ rs. last_from a rs w)
          (sym (
            about-append (edge_of a b) (reports_of_node node.address node.neighbors)
              (reports nodes)))

-- The reports come from the ends of their edges.
abbrev IsFromEnd : Report → Type 0
IsFromEnd r = (r.reporter ≡ r.edge.low_node_address) ⊎ (r.reporter ≡ r.edge.high_node_address)

report_of-IsFromEnd : (x : ℕ) (nb : Neighbor) → IsFromEnd (report_of x nb)
unfolding edge_of
report_of-IsFromEnd x nb = elim (Bool-cases (ltb x nb.address)) [
  | inl low ↦ inl (rw low refl)
  | inr high ↦ elim (Bool-cases (ltb nb.address x)) [
    | inl more ↦ inr (rw more refl)
    | inr eq ↦ inl (ground arith)
  ]
]

All-append : {A : Type 0} (P : A → Type 0) (xs ys : List A) → All P xs → All P ys → All P (xs ++ ys)
All-append P [] ys hx hy = hy
All-append P (x ∷ xs) ys hx hy = (hx.0, All-append P xs ys hx.1 hy)

reports_of_node-IsFromEnd : (x : ℕ) (nbs : List Neighbor) → All IsFromEnd (reports_of_node x nbs)
reports_of_node-IsFromEnd x [] = tt
reports_of_node-IsFromEnd x (nb ∷ nbs) = (report_of-IsFromEnd x nb, reports_of_node-IsFromEnd x nbs)

reports-IsFromEnd : (nodes : List Node) → All IsFromEnd (reports nodes)
reports-IsFromEnd [] = tt
reports-IsFromEnd (node ∷ nodes) =
    All-append IsFromEnd (reports_of_node node.address node.neighbors) (reports nodes)
      (reports_of_node-IsFromEnd node.address node.neighbors) (reports-IsFromEnd nodes)

-- The reports of an edge come from its ends.
abbrev IsFrom : ℕ → ℕ → Report → Type 0
IsFrom a b r = (r.reporter ≡ a) ⊎ (r.reporter ≡ b)

one_of : {x a b : ℕ} (t : Bool) → x ≡ (if t then a else b) → (x ≡ a) ⊎ (x ≡ b)
one_of true e = inl e
one_of false e = inr e

edge_of-ends : (a b : ℕ) (r : Report) → r.edge ≡ edge_of a b → IsFromEnd r → IsFrom a b r
unfolding edge_of
edge_of-ends a b r same (inl low) =
    one_of (ltb a b) (low ∙ ap (λ (e : Edge). e.low_node_address) same)
edge_of-ends a b r same (inr high) =
    one_of (ltb b a) (high ∙ ap (λ (e : Edge). e.high_node_address) same)

about-IsFrom :
    (a b : ℕ) (rs : List Report) → All IsFromEnd rs → All (IsFrom a b) (about (edge_of a b) rs)
about-IsFrom a b [] h = tt
about-IsFrom a b (r ∷ rs) h = elim (Bool-cases (same_edge r.edge (edge_of a b))) [
  | inl same ↦
      rw same
        (edge_of-ends a b r (same_edge→≡ r.edge (edge_of a b) same) h.0, about-IsFrom a b rs h.1)
  | inr other ↦ rw other (about-IsFrom a b rs h.1)
]

-- Of good reports the two ends said the same.
agree :
    (a b : ℕ) (rs : List Report)
    → a ≢ b
    → All (IsFrom a b) rs
    → is_bad rs ≡ false
    → last_from a rs 0 ≡ last_from b rs 0
agree a b [] apart from good = refl
agree a b (r ∷ []) apart from good = cc
agree a b (r ∷ q ∷ []) apart (inl x, (inl y, _)) good = ground arith
agree a b (r ∷ q ∷ []) apart (inl x, (inr y, _)) good = ground arith
agree a b (r ∷ q ∷ []) apart (inr x, (inl y, _)) good = ground arith
agree a b (r ∷ q ∷ []) apart (inr x, (inr y, _)) good = ground arith
agree a b (r ∷ q ∷ p ∷ rs) apart from good = cc

edge_of_comm : (a b : ℕ) → edge_of a b ≡ edge_of b a
unfolding edge_of
edge_of_comm a b = ground arith

-- What the two ends of an edge with good reports have said.
pub last_from_comm :
    (a b : ℕ) (nodes : List Node)
    → a ≢ b
    → is_bad (about (edge_of a b) (reports nodes)) ≡ false
    → last_from a (about (edge_of a b) (reports nodes)) 0
      ≡ last_from b (about (edge_of b a) (reports nodes)) 0
last_from_comm a b nodes apart good =
    agree a b (about (edge_of a b) (reports nodes)) apart
      (about-IsFrom a b (reports nodes) (reports-IsFromEnd nodes)) good
    ∙ ap (λ e. last_from b (about e (reports nodes)) 0) (edge_of_comm a b)
