-- ===== src/RoutingServer/Validation/Reports.antt =====
-- validation.c: the reports that the nodes send, in the order in which the loops read them, and
-- what the reports of an edge say. This is the specification of the counting.
use in_lib.Base.{
  ℕ, suc, ◌≡◌, refl, ap, Bool, true, false, not, ◌||◌, List, [], ◌∷◌, ◌++◌, ◌==◌, if◌then◌else◌,
  length, Option, none, some, Bool-cases, inl, inr,
}
use in_lib.RoutingServer.Network.{Edge, Node, Neighbor}
use in_lib.RoutingServer.Validation.{same_edge, edge_of, EdgeCounter}

-- Node `reporter` says that the edge has a weight.
pub record Report : Type 0 where
  pub edge : Edge
  pub reporter : ℕ
  pub weight : ℕ

abbrev pub report_of : ℕ → Neighbor → Report
report_of address nb = record {
  edge = edge_of address nb.address;
  reporter = address;
  weight = nb.weight;
}

abbrev pub reports_of_node : ℕ → List Neighbor → List Report
reports_of_node address [] = []
reports_of_node address (nb ∷ nbs) = report_of address nb ∷ reports_of_node address nbs

abbrev pub reports : List Node → List Report
reports [] = []
reports (node ∷ nodes) = reports_of_node node.address node.neighbors ++ reports nodes

-- The reports about one edge.
abbrev pub about : Edge → List Report → List Report
about f [] = []
about f (r ∷ rs) = if same_edge r.edge f then r ∷ about f rs else about f rs

pub about-concat_same :
    (f : Edge) (rs : List Report) (r : Report)
    → same_edge r.edge f ≡ true
    → about f (rs ++ r ∷ []) ≡ about f rs ++ r ∷ []
about-concat_same f [] r h = rw h refl
about-concat_same f (q ∷ rs) r h = elim (Bool-cases (same_edge q.edge f)) [
  | inl same ↦ rw same (ap (λ xs. q ∷ xs) (about-concat_same f rs r h))
  | inr other ↦ rw other (about-concat_same f rs r h)
]

pub about-concat_other :
    (f : Edge) (rs : List Report) (r : Report)
    → same_edge r.edge f ≡ false
    → about f (rs ++ r ∷ []) ≡ about f rs
about-concat_other f [] r h = rw h refl
about-concat_other f (q ∷ rs) r h = elim (Bool-cases (same_edge q.edge f)) [
  | inl same ↦ rw same (ap (λ xs. q ∷ xs) (about-concat_other f rs r h))
  | inr other ↦ rw other (about-concat_other f rs r h)
]

-- Two reports that do not fit: from the same node, or with different weights.
abbrev pub disagree : Report → Report → Bool
disagree r q = (r.reporter == q.reporter) || not (r.weight == q.weight)

-- What is seen before all reports are in.
abbrev pub is_bad_so_far : List Report → Bool
is_bad_so_far [] = false
is_bad_so_far (r ∷ []) = false
is_bad_so_far (r ∷ q ∷ []) = disagree r q
is_bad_so_far (r ∷ q ∷ p ∷ rs) = true

-- An edge is good if its two ends reported it once each, with the same weight.
abbrev pub is_bad : List Report → Bool
is_bad [] = false
is_bad (r ∷ []) = true
is_bad (r ∷ q ∷ []) = disagree r q
is_bad (r ∷ q ∷ p ∷ rs) = true

-- The counter that the reports about an edge leave.
abbrev pub counter_for : Edge → List Report → Option EdgeCounter
counter_for f [] = none
counter_for f (r ∷ rs) = some (record {
  edge = f;
  encounters = suc (length rs);
  address_of_first_index = r.reporter;
  reported_weight = r.weight;
})
