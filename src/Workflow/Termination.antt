-- ===== src/Workflow/Termination.antt =====
-- The `while` loop of apps/desktop-agent/src/workflow/dag-parser.ts ends.
use nexus_os_ai_workspace.Base.{
  ℕ, zero, suc, ◌+◌, ◌≤◌, ◌<◌, ◌-◌, ◌≡◌, ◌≢◌, ap, ◌⊎◌, inl, inr, String, Bool, true, false, none,
  List, [], ◌∷◌, ◌++◌, arith, Option-cases, Bool-cases, eqb, eqb_iff, length, length-append, ◌==◌,
  get, put, get_or, Result, returned, thrown, ◌>>=◌, ◌>>◌, require, nonempty, includes, not, ltb,
  ◌&&◌,
}
use nexus_os_ai_workspace.Workflow.Walk.{
  Graph, roots, visit_children, visit_tier, walk, total_degree, link,
}
use nexus_os_ai_workspace.Workflow.{
  WorkflowNode, WorkflowEdge, WorkflowDag, DagError, out_of_fuel, check_nodes, bare_graph,
  link_dependencies, link_nodes, link_edges, order_of, parse_and_validate,
}

total-put :
    (c : String) (d : ℕ) (m : List (String × ℕ))
    → total_degree (put c d m) + get_or (get c m) 0 ≡ total_degree m + d
unfolding total_degree get put
total-put c d [] = omega arith
total-put c d ((k, e) ∷ m) = ground (arith, total-put c d m)

-- Each child whose degree reaches 0 takes one off the sum.
total-visit_children :
    (cs : List String) (m : List (String × ℕ))
    → let (m', next) = visit_children cs m in total_degree m' + length next ≤ total_degree m
unfolding visit_children
total-visit_children [] m = omega arith
total-visit_children (c ∷ cs) m =
    let d = get_or (get c m) 0 in
    ground (arith, total-put c (d - 1) m, total-visit_children cs (put c (d - 1) m))

total-visit_tier :
    (children : List (String × List String)) (ns : List String) (m : List (String × ℕ))
    → let (m', next) = visit_tier children ns m in total_degree m' + length next ≤ total_degree m
unfolding visit_tier
total-visit_tier children [] m = omega arith
total-visit_tier children (n ∷ ns) m =
    let cs = get_or (get n children) [] in
    let (seen, first) = visit_children cs m in
    let (done, rest) = visit_tier children ns seen in
    omega (
      arith,
      total-visit_children cs m,
      total-visit_tier children ns seen,
      length-append first rest,
    )

pub walk_ends :
    (fuel : ℕ) (children : List (String × List String)) (tier : List String) (m : List (String × ℕ))
    → (length tier ≡ 0) ⊎ (total_degree m < fuel)
    → walk fuel children tier m ≢ none
unfolding walk
walk_ends fuel children [] m h e = ground arith
walk_ends zero children (n ∷ ns) m h e = ground arith
walk_ends (suc fuel) children (n ∷ ns) m h e =
    let (done, next) = visit_tier children (n ∷ ns) m in
    let less = total-visit_tier children (n ∷ ns) m in
    let enough : (length next ≡ 0) ⊎ (total_degree done < fuel) =
      elim (Bool-cases (eqb (length next) 0)) [
        | inl last ↦ inl ((eqb_iff (length next) 0).0 last)
        | inr more ↦ inr (ground (arith, h, less, more))
      ] in
    elim (Option-cases (walk fuel children next done)) [
      | inl stuck ↦ walk_ends fuel children next done enough stuck
      | inr (o, ends) ↦ cc (rw (walk, ends) at e)
    ]

-- With the sum of the degrees as fuel, and one more, the walk from the roots ends.
order_of_returns : (nodes : ℕ) (g : Graph) → order_of nodes g ≢ thrown out_of_fuel
unfolding order_of
order_of_returns nodes g e =
    let degrees = g.in_degree in
    let fuel = suc (total_degree degrees) in
    elim (Option-cases (walk fuel g.children (roots degrees) degrees)) [
      | inl stuck ↦ walk_ends fuel g.children (roots degrees) degrees (inr (omega arith)) stuck
      | inr (o, ends) ↦ elim (Bool-cases (eqb (length o.nodes) nodes)) [
        | inl all ↦ cc (rw (order_of, ends, all) at e)
        | inr some_left ↦ cc (rw (order_of, ends, some_left) at e)
      ]
    ]

module _ {ℓ} {A : Type ℓ} where
  require_returns :
      (b : Bool) (err : DagError) (m : Result DagError A)
      → err ≢ out_of_fuel
      → m ≢ thrown out_of_fuel
      → (require b err >> m) ≢ thrown out_of_fuel
  require_returns true err m h k e = k e
  require_returns false err m h k e = h (ground arith)

module _ {ℓ κ} {A : Type ℓ} {B : Type κ} where
  bind_returns :
      (m : Result DagError A) (f : A → Result DagError B)
      → m ≢ thrown out_of_fuel
      → ((a : A) → f a ≢ thrown out_of_fuel)
      → (m >>= f) ≢ thrown out_of_fuel
  bind_returns (returned a) f h k e = k a e
  bind_returns (thrown err) f h k e = h (ap thrown (ground arith))

check_nodes_returns :
    (ids : List String) (ns : List WorkflowNode) → check_nodes ids ns ≢ thrown out_of_fuel
unfolding check_nodes
check_nodes_returns ids [] = λ e. cc e
check_nodes_returns ids (n ∷ ns) =
    require_returns (nonempty n.node_id) DagError.invalid_node_id _ (λ e. cc e)
      (require_returns (not (includes n.node_id ids)) DagError.duplicate_node_id _ (λ e. cc e)
        (require_returns (nonempty n.capability_id) DagError.invalid_capability_id _ (λ e. cc e)
          (check_nodes_returns (ids ++ n.node_id ∷ []) ns)))

link_dependencies_returns :
    (ids : List String) (node : String) (ds : List String) (g : Graph)
    → link_dependencies ids node ds g ≢ thrown out_of_fuel
unfolding link_dependencies
link_dependencies_returns ids node [] g = λ e. cc e
link_dependencies_returns ids node (d ∷ ds) g =
    require_returns (includes d ids) DagError.invalid_node_dependency _ (λ e. cc e)
      (require_returns (not (d == node)) DagError.dag_cycle_detected _ (λ e. cc e)
        (link_dependencies_returns ids node ds (link g d node)))

link_nodes_returns :
    (ids : List String) (ns : List WorkflowNode) (g : Graph)
    → link_nodes ids ns g ≢ thrown out_of_fuel
unfolding link_nodes
link_nodes_returns ids [] g = λ e. cc e
link_nodes_returns ids (n ∷ ns) g =
    bind_returns (link_dependencies ids n.node_id n.dependencies g) (link_nodes ids ns)
      (link_dependencies_returns ids n.node_id n.dependencies g) (link_nodes_returns ids ns)

link_edges_returns :
    (ids : List String) (es : List WorkflowEdge) (g : Graph)
    → link_edges ids es g ≢ thrown out_of_fuel
unfolding link_edges
link_edges_returns ids [] g = λ e. cc e
link_edges_returns ids (e ∷ es) g =
    require_returns (includes e.from_node_id ids && includes e.to_node_id ids) DagError.invalid_edge
      _ (λ e. cc e)
      (require_returns (not (e.from_node_id == e.to_node_id)) DagError.dag_cycle_detected _
        (λ e. cc e) (link_edges_returns ids es (link g e.from_node_id e.to_node_id)))

-- Parsing a workflow never runs out of the fuel of its walk, one more than the sum of the degrees of
-- the graph: the loop over the tiers ends on every workflow, with or without a cycle.
pub parse_terminates :
    (max_nodes : ℕ) (dag : WorkflowDag) → parse_and_validate max_nodes dag ≢ thrown out_of_fuel
unfolding parse_and_validate
parse_terminates max_nodes dag =
    require_returns (nonempty dag.workflow_id) DagError.invalid_workflow_id _ (λ e. cc e)
      (require_returns (not (eqb (length dag.nodes) 0)) DagError.empty_workflow _ (λ e. cc e)
        (require_returns (not (ltb max_nodes (length dag.nodes))) DagError.dag_too_large _
          (λ e. cc e)
          (bind_returns (check_nodes [] dag.nodes) _ (check_nodes_returns [] dag.nodes) (λ ids.
            bind_returns (link_nodes ids dag.nodes (bare_graph ids)) _
              (link_nodes_returns ids dag.nodes (bare_graph ids))
              (λ g.
                bind_returns (link_edges ids dag.edges g) _ (link_edges_returns ids dag.edges g)
                  (order_of_returns (length dag.nodes)))))))
