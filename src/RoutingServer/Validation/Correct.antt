-- ===== src/RoutingServer/Validation/Correct.antt =====
-- validation.c: which edges `checkAllNodesReceived` marks.
use in_lib.Base.{
  some_inj, ℕ, ◌≡◌, refl, sym, ap, ◌∙◌, subst, Bool, true, false, ◌||◌, none, some, List, [], ◌∷◌,
  ◌++◌, bind-eq-some,
}
use in_lib.RoutingServer.Network.{Edge, EdgeArray, Node, Neighbor}
use in_lib.RoutingServer.Validation.{
  is_edge_present, State, report, report_neighbors, report_nodes, check_all_nodes_received,
}
use mathlib.Core.List.{append_assoc}
use in_lib.RoutingServer.Validation.Reports.{
  Report, report_of, reports_of_node, reports, about, is_bad_so_far, is_bad, counter_for, disagree,
}
use in_lib.RoutingServer.Validation.Counters.{met_once-counter_of, was_met_once}
use in_lib.RoutingServer.Validation.Invalid.{check_dual_report_lem, or_assoc, or_false}
use in_lib.RoutingServer.Validation.Invariant.{Inv, report-Inv}

append_nil : (xs : List Report) → xs ≡ xs ++ []
append_nil [] = refl
append_nil (x ∷ xs) = ap (λ rs. x ∷ rs) (append_nil xs)

-- Nothing more is reported.
finished :
    (before : EdgeArray) (done : List Report) (s after : State)
    → Inv before done s
    → some s ≡ some after
    → Inv before (done ++ []) after
finished before done s after inv ran =
    subst (Inv before (done ++ [])) (some_inj ran)
      (subst (λ rs. Inv before rs s) (append_nil done) inv)

neighbors-Inv :
    (before : EdgeArray) (address : ℕ) (nbs : List Neighbor) (done : List Report) (s after : State)
    → Inv before done s
    → report_neighbors address nbs s ≡ some after
    → Inv before (done ++ reports_of_node address nbs) after
unfolding report_neighbors
neighbors-Inv before address [] done s after inv ran = finished before done s after inv ran
neighbors-Inv before address (nb ∷ nbs) done s after inv ran =
    let (mid, first, rest) = bind-eq-some (report address nb s) _ after ran in
    subst (λ rs. Inv before rs after)
      (append_assoc done (report_of address nb ∷ []) (reports_of_node address nbs))
      (neighbors-Inv before address nbs (done ++ report_of address nb ∷ []) mid after
        (report-Inv before done address nb s mid inv first) rest)

nodes-Inv :
    (before : EdgeArray) (nodes : List Node) (done : List Report) (s after : State)
    → Inv before done s
    → report_nodes nodes s ≡ some after
    → Inv before (done ++ reports nodes) after
unfolding report_nodes
nodes-Inv before [] done s after inv ran = finished before done s after inv ran
nodes-Inv before (node ∷ nodes) done s after inv ran =
    let (mid, first, rest) =
      bind-eq-some (report_neighbors node.address node.neighbors s) _ after ran in
    subst (λ rs. Inv before rs after)
      (append_assoc done (reports_of_node node.address node.neighbors) (reports nodes))
      (nodes-Inv before nodes (done ++ reports_of_node node.address node.neighbors) mid after
        (neighbors-Inv before node.address node.neighbors done s mid inv first) rest)

-- The check at the end adds the edges that were reported once.
is_bad-met_once :
    (f : Edge) (rs : List Report)
    → (is_bad_so_far rs || was_met_once (counter_for f rs)) ≡ is_bad rs
is_bad-met_once f [] = refl
is_bad-met_once f (r ∷ []) = refl
is_bad-met_once f (r ∷ q ∷ []) = sym (or_false (disagree r q))
is_bad-met_once f (r ∷ q ∷ p ∷ rs) = refl

-- When the check of the reports succeeds, the edges marked invalid are those marked before and
-- those that were not reported exactly twice, by different nodes and with the same weight.
pub check_all_nodes_received_marks :
    (allocated : Bool) (node_array : List Node) (before after : EdgeArray)
    → check_all_nodes_received allocated node_array before ≡ some after
    → (f : Edge)
    → is_edge_present f after.array
      ≡ (is_edge_present f before.array || is_bad (about f (reports node_array)))
unfolding check_all_nodes_received
check_all_nodes_received_marks false node_array before after ran f = cc
check_all_nodes_received_marks true node_array before after ran f =
    let (s, counted, checked) = bind-eq-some (report_nodes node_array _) _ after ran in
    let inv =
      nodes-Inv before node_array [] _ s
        (record {
          counted = λ g. refl;
          marked = λ g. or_false (is_edge_present g before.array);
          distinct = tt;
        })
        counted in
    check_dual_report_lem s.counters.array s.invalid after checked f
    ∙ rw (inv.marked f, met_once-counter_of f s.counters.array inv.distinct, inv.counted f)
        (sym (
            or_assoc (is_edge_present f before.array) (is_bad_so_far (about f (reports node_array)))
              _)
          ∙ ap (λ b. is_edge_present f before.array || b)
              (is_bad-met_once f (about f (reports node_array))))

-- A network of two nodes is refused, whatever weights the nodes report of the one edge between
-- them: the search among the counters stops with a failure at the last place of the array.
pub check_all_nodes_received_two_nodes :
    (a b w v : ℕ) (invalid : EdgeArray)
    → check_all_nodes_received true
        (record { address = a; neighbors = record { address = b; weight = w } ∷ [] }
          ∷ record { address = b; neighbors = record { address = a; weight = v } ∷ [] }
          ∷ [])
        invalid
      ≡ none
unfolding check_all_nodes_received
check_all_nodes_received_two_nodes a b w v invalid = refl
