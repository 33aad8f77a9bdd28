-- ===== src/Workflow/Accepted.antt =====
-- What `parseAndValidate` of apps/desktop-agent/src/workflow/dag-parser.ts accepts.
use nexus_os_ai_workspace.Base.{
  ℕ, suc, ◌≡◌, refl, subst, String, false, not, List, [], ◌++◌, Option-cases, Bool-cases, inl, inr,
  eqb, eqb_iff, length, All-mono, returned, ◌>>=◌, ◌>>◌, require, >>=-eq-returned, ltb, nonempty,
  includes,
}
use nexus_os_ai_workspace.Workflow.Walk.{Graph, Order, roots, walk, total_degree}
use nexus_os_ai_workspace.Workflow.{
  WorkflowDag, DagError, check_nodes, bare_graph, link_nodes, link_edges, order_of,
  parse_and_validate,
}
use nexus_os_ai_workspace.Workflow.Degrees.{degree}
use nexus_os_ai_workspace.Workflow.Topology.{Links, Topological, Walking, walk-Topological}
use nexus_os_ai_workspace.Workflow.Linked.{
  Holds, Holds-nodes, Holds-edges, Holds-bare_graph, check_nodes-Distinct, Root, Root-roots, passed,
  node_links, edge_links,
}

-- The links of a workflow: its nodes' dependencies, then its edges.
abbrev pub dag_links : WorkflowDag → Links
dag_links dag = node_links dag.nodes ++ edge_links dag.edges

pub Walking-start :
    (g : Graph) (links : Links) → Holds g links → Walking links g.in_degree (roots g.in_degree) []
Walking-start g links h =
    let m = g.in_degree in
    let (found, distinct) = Root-roots m h.distinct in
    record {
      counts = h.counts;
      distinct = distinct;
      new = All-mono (Root m) (λ x. includes x [] ≡ false) (roots m) (λ x r. refl) found;
      spent = All-mono (Root m) (λ x. degree m x ≡ 0) (roots m) (λ x r. r.1) found;
      old = tt;
    }

order_of-Topological :
    (nodes : ℕ) (g : Graph) (links : Links) (o : Order)
    → order_of nodes g ≡ returned o
    → Holds g links
    → Topological links [] o.nodes × (length o.nodes ≡ nodes)
unfolding order_of
order_of-Topological nodes g links o e h =
    let m = g.in_degree in
    let fuel = suc (total_degree m) in
    elim (Option-cases (walk fuel g.children (roots m) m)) [
      | inl stuck ↦ cc (rw (order_of, stuck) at e)
      | inr (o', ends) ↦ elim (Bool-cases (eqb (length o'.nodes) nodes)) [
        | inr fewer ↦ cc (rw (order_of, ends, fewer) at e)
        | inl all ↦
            let same : o' ≡ o = cc (rw (order_of, ends, all) at e) in
            subst (λ (x : Order). Topological links [] x.nodes × (length x.nodes ≡ nodes)) same
              (
                walk-Topological links fuel g.children (roots m) m [] o' ends h.lists
                    (Walking-start g links h),
                (eqb_iff (length o'.nodes) nodes).0 all,
              )
      ]
    ]

-- The order of a workflow that is accepted has as many entries as the workflow has nodes, none
-- twice, and each stands after all the nodes it depends on, by its dependencies or by an edge.
pub parse-Topological :
    (max_nodes : ℕ) (dag : WorkflowDag) (o : Order)
    → parse_and_validate max_nodes dag ≡ returned o
    → Topological (dag_links dag) [] o.nodes × (length o.nodes ≡ length dag.nodes)
unfolding parse_and_validate
parse-Topological max_nodes dag o e =
    let named = nonempty dag.workflow_id in
    let filled = not (eqb (length dag.nodes) 0) in
    let small = not (ltb max_nodes (length dag.nodes)) in
    let with_graph = λ (ids : List String) (g : Graph).
      link_edges ids dag.edges g >>= λ h. order_of (length dag.nodes) h in
    let with_ids =
      λ (ids : List String). link_nodes ids dag.nodes (bare_graph ids) >>= with_graph ids in
    let checked = check_nodes [] dag.nodes >>= with_ids in
    let bounded = require small DagError.dag_too_large >> checked in
    let (_, e1) =
      passed named DagError.invalid_workflow_id (require filled DagError.empty_workflow >> bounded)
        o e in
    let (_, e2) = passed filled DagError.empty_workflow bounded o e1 in
    let (_, e3) = passed small DagError.dag_too_large checked o e2 in
    let (ids, unique, e4) = >>=-eq-returned (check_nodes [] dag.nodes) with_ids e3 in
    let bare = bare_graph ids in
    let (g, linked, e5) = >>=-eq-returned (link_nodes ids dag.nodes bare) (with_graph ids) e4 in
    let (h, edged, e6) =
      >>=-eq-returned (link_edges ids dag.edges g) (order_of (length dag.nodes)) e5 in
    let start = Holds-bare_graph ids (check_nodes-Distinct [] dag.nodes ids unique tt) in
    let nodes = Holds-nodes ids dag.nodes bare g [] linked start in
    order_of-Topological (length dag.nodes) h (dag_links dag) o e6
      (Holds-edges ids dag.edges g h (node_links dag.nodes) edged nodes)
