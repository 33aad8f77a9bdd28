-- ===== src/Workflow.antt =====
-- Workflows: class `WorkflowDAGParser` of apps/desktop-agent/src/workflow/dag-parser.ts. The checks
-- that values have the types of their declarations are left out, and so are the fields that it does
-- not read.
pub mod Walk
pub mod Termination
pub mod Degrees
pub mod Topology
pub mod Linked
pub mod Accepted
pub mod Closed
pub mod Complete
use nexus_os_ai_workspace.Base.{
  ℕ, suc, ◌+◌, String, Bool, true, false, not, ◌&&◌, Option, none, some, List, [], ◌∷◌, ◌++◌,
  if◌then◌else◌, ltb, eqb, length, nonempty, ◌==◌, includes, Result, returned, thrown, ◌>>=◌, ◌>>◌,
  require,
}
use Walk.{Graph, Order, link, roots, walk, total_degree}

pub record WorkflowNode : Type 0 where
  pub node_id : String
  pub capability_id : String
  pub dependencies : List String

pub record WorkflowEdge : Type 0 where
  pub from_node_id : String
  pub to_node_id : String

-- Absent dependencies and edges are empty lists.
pub record WorkflowDag : Type 0 where
  pub workflow_id : String
  pub nodes : List WorkflowNode
  pub edges : List WorkflowEdge

-- The error codes; `out_of_fuel` is none of them.
pub data DagError : Type 0 where
  invalid_workflow_id empty_workflow dag_too_large : DagError
  invalid_node_id duplicate_node_id invalid_capability_id : DagError
  invalid_node_dependency invalid_edge dag_cycle_detected out_of_fuel : DagError

-- The loop that fills `nodeMap`, whose keys these are.
unfoldable pub check_nodes : List String → List WorkflowNode → Result DagError (List String)
check_nodes ids [] = returned ids
check_nodes ids (n ∷ ns) =
    let rest = check_nodes (ids ++ n.node_id ∷ []) ns in
    require (nonempty n.node_id) invalid_node_id
    >> (require (not (includes n.node_id ids)) duplicate_node_id
        >> (require (nonempty n.capability_id) invalid_capability_id >> rest))

-- Every node without children and with degree 0.
unfoldable pub bare_graph : List String → Graph
bare_graph [] = record { children = []; in_degree = [] }
bare_graph (k ∷ ks) =
    let g = bare_graph ks in
    record { children = (k, []) ∷ g.children; in_degree = (k, 0) ∷ g.in_degree }

-- The loop over the dependencies of a node.
unfoldable pub link_dependencies :
    List String → String → List String → Graph → Result DagError Graph
unfolding link
link_dependencies ids node [] g = returned g
link_dependencies ids node (d ∷ ds) g =
    let rest = link_dependencies ids node ds (link g d node) in
    require (includes d ids) invalid_node_dependency
    >> (require (not (d == node)) dag_cycle_detected >> rest)

unfoldable pub link_nodes : List String → List WorkflowNode → Graph → Result DagError Graph
unfolding link_dependencies
link_nodes ids [] g = returned g
link_nodes ids (n ∷ ns) g =
    link_dependencies ids n.node_id n.dependencies g >>= λ h. link_nodes ids ns h

unfoldable pub link_edges : List String → List WorkflowEdge → Graph → Result DagError Graph
unfolding link
link_edges ids [] g = returned g
link_edges ids (e ∷ es) g =
    let rest = link_edges ids es (link g e.from_node_id e.to_node_id) in
    require (includes e.from_node_id ids && includes e.to_node_id ids) invalid_edge
    >> (require (not (e.from_node_id == e.to_node_id)) dag_cycle_detected >> rest)

-- The walk, and the comparison of its length with the number of nodes.
unfoldable pub order_of : (nodes : ℕ) → Graph → Result DagError Order
unfolding walk roots total_degree
order_of nodes g =
    elim (walk (suc (total_degree g.in_degree)) g.children (roots g.in_degree) g.in_degree) [
      | none ↦ thrown out_of_fuel
      | some o ↦ if eqb (length o.nodes) nodes then returned o else thrown dag_cycle_detected
    ]

unfoldable pub parse_and_validate : (max_nodes : ℕ) → WorkflowDag → Result DagError Order
unfolding check_nodes bare_graph link_nodes link_edges order_of
parse_and_validate max_nodes dag =
    require (nonempty dag.workflow_id) invalid_workflow_id
    >> (require (not (eqb (length dag.nodes) 0)) empty_workflow
        >> (require (not (ltb max_nodes (length dag.nodes))) dag_too_large
            >> (check_nodes [] dag.nodes >>= λ ids.
                link_nodes ids dag.nodes (bare_graph ids) >>= λ g.
                link_edges ids dag.edges g >>= λ h. order_of (length dag.nodes) h)))
