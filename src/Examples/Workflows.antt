-- ===== src/Examples/Workflows.antt =====
-- Workflows: a diamond and a cycle.
use nexus_os_ai_workspace.Base.{
  String, ◌≡◌, ◌≢◌, refl, List, [], ◌∷◌, length, returned, thrown, get, put, All, includes, true,
}
use nexus_os_ai_workspace.Workflow.{
  WorkflowNode, WorkflowDag, out_of_fuel, bare_graph, order_of, parse_and_validate,
}
use nexus_os_ai_workspace.Workflow.Walk.{Graph, Order, link}
use nexus_os_ai_workspace.Workflow.Linked.{Holds, keys, Holds-bare_graph, Holds-link}
use nexus_os_ai_workspace.Workflow.Complete.{order_of_complete}
use nexus_os_ai_workspace.Workflow.Topology.{Topological}
use nexus_os_ai_workspace.Workflow.Accepted.{dag_links, parse-Topological}
use nexus_os_ai_workspace.Workflow.Termination.{parse_terminates}

abbrev node : String → List String → WorkflowNode
node id deps = record { node_id = id; capability_id = "run"; dependencies = deps }

-- d needs b and c, and these need a: one by a dependency, one by an edge.
abbrev diamond : WorkflowDag
diamond = record {
  workflow_id = "w";
  nodes = node "d" ("b" ∷ "c" ∷ []) ∷ node "c" [] ∷ node "b" ("a" ∷ []) ∷ node "a" [] ∷ [];
  edges = record { from_node_id = "a"; to_node_id = "c" } ∷ [];
}

abbrev diamond_order : Order
diamond_order = record {
  nodes = "a" ∷ "b" ∷ "c" ∷ "d" ∷ [];
  tiers = ("a" ∷ []) ∷ ("b" ∷ "c" ∷ []) ∷ ("d" ∷ []) ∷ [];
}

diamond_parses : parse_and_validate 50 diamond ≡ returned diamond_order
unfolding parse_and_validate get put
diamond_parses = refl

parse-Topological_example :
    Topological (dag_links diamond) [] diamond_order.nodes × (length diamond_order.nodes ≡ 4)
parse-Topological_example = parse-Topological 50 diamond diamond_order diamond_parses

abbrev cycle : WorkflowDag
cycle = record {
  workflow_id = "w";
  nodes = node "a" ("b" ∷ []) ∷ node "b" ("a" ∷ []) ∷ [];
  edges = [];
}

parse_terminates_example : parse_and_validate 50 cycle ≢ thrown out_of_fuel
parse_terminates_example = parse_terminates 50 cycle

-- One link, to the node that stands first.
abbrev pair : Graph
pair = link (bare_graph ("b" ∷ "a" ∷ [])) "a" "b"

pair-Holds : Holds pair (("a", "b") ∷ [])
pair-Holds =
    Holds-link (bare_graph ("b" ∷ "a" ∷ [])) [] "a" "b"
      (Holds-bare_graph ("b" ∷ "a" ∷ []) (refl, (refl, tt)))

pair_known : All (λ x. includes x (keys pair.in_degree) ≡ true) ("a" ∷ "b" ∷ [])
unfolding bare_graph link put get
pair_known = (refl, (refl, tt))

pair_ordered : All (λ x. includes x ("a" ∷ "b" ∷ []) ≡ true) (keys pair.in_degree)
unfolding bare_graph link put get
pair_ordered = (refl, (refl, tt))

order_of_complete_example :
    (o : Order) × (order_of (length (keys pair.in_degree)) pair ≡ returned o)
order_of_complete_example =
    order_of_complete pair (("a", "b") ∷ []) ("a" ∷ "b" ∷ []) pair-Holds
      (refl, refl, (refl, refl, tt)) pair_known pair_ordered
