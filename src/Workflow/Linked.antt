-- ===== src/Workflow/Linked.antt =====
-- The graph that apps/desktop-agent/src/workflow/dag-parser.ts builds holds the links of the
-- workflow, and its walk starts from the nodes without parents.
use nexus_os_ai_workspace.Base.{
  ℕ, ◌+◌, ◌≡◌, refl, ap, subst, String, Bool, true, false, not, ◌&&◌, ◌||◌, List, [], ◌∷◌, ◌++◌,
  arith, Bool-cases, inl, inr, eqb, ◌==◌, eq_iff, eq_refl, get, put, get_or, get-put, All, All-mono,
  includes, count-append, append-nil, append_assoc, Result, returned, ◌>>◌, require,
  >>=-eq-returned, nonempty,
}
use nexus_os_ai_workspace.Workflow.Walk.{Graph, link, roots}
use nexus_os_ai_workspace.Workflow.{
  WorkflowNode, WorkflowEdge, DagError, check_nodes, bare_graph, link_dependencies, link_nodes,
  link_edges,
}
use nexus_os_ai_workspace.Workflow.Degrees.{
  Degrees, degree, Distinct, All-excludes, Distinct-append,
}
use nexus_os_ai_workspace.Workflow.Topology.{Links, is_link, pending, Lists, Counts}

abbrev pub dependency_links : String → List String → Links
dependency_links node [] = []
dependency_links node (d ∷ ds) = (d, node) ∷ dependency_links node ds

-- From each dependency to the node that names it.
abbrev pub node_links : List WorkflowNode → Links
node_links [] = []
node_links (n ∷ ns) = dependency_links n.node_id n.dependencies ++ node_links ns

abbrev pub edge_links : List WorkflowEdge → Links
edge_links [] = []
edge_links (e ∷ es) = (e.from_node_id, e.to_node_id) ∷ edge_links es

abbrev pub keys : Degrees → List String
keys [] = []
keys ((k, d) ∷ m) = k ∷ keys m

pub record Holds (g : Graph) (links : Links) : Type 0 where
  pub lists : Lists links g.children
  pub counts : Counts links g.in_degree []
  pub distinct : Distinct (keys g.in_degree)

includes-keys-put :
    (k j : String) (d : ℕ) (m : Degrees)
    → includes j (keys (put k d m)) ≡ (includes j (keys m) || k == j)
unfolding put
includes-keys-put k j d [] = ground arith
includes-keys-put k j d ((i, e) ∷ m) =
    ground (arith, includes-keys-put k j d m, eq_iff i k, eq_iff i j, eq_iff k j)

Distinct-keys-put :
    (k : String) (d : ℕ) (m : Degrees) → Distinct (keys m) → Distinct (keys (put k d m))
unfolding put
Distinct-keys-put k d [] h = (refl, tt)
Distinct-keys-put k d ((i, e) ∷ m) h = elim (Bool-cases (i == k)) [
  | inl own ↦ rw (put, own) h
  | inr other ↦
      rw (put, other)
        (
          ground (arith, includes-keys-put k i d m, other, h.0, eq_iff i k, eq_iff k i),
          Distinct-keys-put k d m h.1,
        )
]

pub Holds-link :
    (g : Graph) (links : Links) (p c : String)
    → Holds g links
    → Holds (link g p c) (links ++ (p, c) ∷ [])
unfolding link
Holds-link g links p c h = record {
  lists = λ q x. ground (
    arith,
    h.lists q x,
    count-append (is_link q x) links ((p, c) ∷ []),
    get-put p q (get_or (get p g.children) [] ++ c ∷ []) g.children,
    count-append (λ y. y == x) (get_or (get p g.children) []) (c ∷ []),
    eq_iff p q,
  );
  counts = λ x. ground (
    arith,
    h.counts x,
    count-append (pending [] x) links ((p, c) ∷ []),
    get-put c x (get_or (get c g.in_degree) 0 + 1) g.in_degree,
    eq_iff c x,
  );
  distinct = Distinct-keys-put c (degree g.in_degree c + 1) g.in_degree h.distinct;
}

-- A guarded step that returns.
pub passed :
    {A : Type 0} (b : Bool) (err : DagError) (m : Result DagError A) (a : A)
    → (require b err >> m) ≡ returned a
    → (b ≡ true) × (m ≡ returned a)
passed true err m a h = (refl, h)
passed false err m a h = cc h

Holds-dependencies :
    (ids : List String) (node : String) (ds : List String) (g h : Graph) (links : Links)
    → link_dependencies ids node ds g ≡ returned h
    → Holds g links
    → Holds h (links ++ dependency_links node ds)
unfolding link_dependencies
Holds-dependencies ids node [] g h links e k =
    let same : g ≡ h = cc e in rw (append-nil links) (subst (λ x. Holds x links) same k)
Holds-dependencies ids node (d ∷ ds) g h links e k =
    let rest = link_dependencies ids node ds (link g d node) in
    let (_, e1) =
      passed (includes d ids) DagError.invalid_node_dependency
        (require (not (d == node)) DagError.dag_cycle_detected >> rest) h e in
    let (_, e2) = passed (not (d == node)) DagError.dag_cycle_detected rest h e1 in
    subst (Holds h) (append_assoc links ((d, node) ∷ []) (dependency_links node ds)) (
      Holds-dependencies ids node ds (link g d node) h (links ++ (d, node) ∷ []) e2
        (Holds-link g links d node k))

pub Holds-nodes :
    (ids : List String) (ns : List WorkflowNode) (g h : Graph) (links : Links)
    → link_nodes ids ns g ≡ returned h
    → Holds g links
    → Holds h (links ++ node_links ns)
unfolding link_nodes
Holds-nodes ids [] g h links e k =
    let same : g ≡ h = cc e in rw (append-nil links) (subst (λ x. Holds x links) same k)
Holds-nodes ids (n ∷ ns) g h links e k =
    let (g', one, rest) =
      >>=-eq-returned (link_dependencies ids n.node_id n.dependencies g) (link_nodes ids ns) e in
    let ds = dependency_links n.node_id n.dependencies in
    subst (Holds h) (append_assoc links ds (node_links ns)) (
      Holds-nodes ids ns g' h (links ++ ds) rest
        (Holds-dependencies ids n.node_id n.dependencies g g' links one k))

pub Holds-edges :
    (ids : List String) (es : List WorkflowEdge) (g h : Graph) (links : Links)
    → link_edges ids es g ≡ returned h
    → Holds g links
    → Holds h (links ++ edge_links es)
unfolding link_edges
Holds-edges ids [] g h links e k =
    let same : g ≡ h = cc e in rw (append-nil links) (subst (λ x. Holds x links) same k)
Holds-edges ids (d ∷ es) g h links e k =
    let p = d.from_node_id in
    let c = d.to_node_id in
    let rest = link_edges ids es (link g p c) in
    let (_, e1) =
      passed (includes p ids && includes c ids) DagError.invalid_edge
        (require (not (p == c)) DagError.dag_cycle_detected >> rest) h e in
    let (_, e2) = passed (not (p == c)) DagError.dag_cycle_detected rest h e1 in
    subst (Holds h) (append_assoc links ((p, c) ∷ []) (edge_links es))
      (Holds-edges ids es (link g p c) h (links ++ (p, c) ∷ []) e2 (Holds-link g links p c k))

keys-bare_graph : (ids : List String) → keys (bare_graph ids).in_degree ≡ ids
unfolding bare_graph
keys-bare_graph [] = refl
keys-bare_graph (k ∷ ids) = ap (λ l. k ∷ l) (keys-bare_graph ids)

Lists-bare_graph : (ids : List String) → Lists [] (bare_graph ids).children
unfolding bare_graph get
Lists-bare_graph [] p c = refl
Lists-bare_graph (k ∷ ids) p c = ground (arith, Lists-bare_graph ids p c)

Counts-bare_graph : (ids : List String) → Counts [] (bare_graph ids).in_degree []
unfolding bare_graph get
Counts-bare_graph [] c = refl
Counts-bare_graph (k ∷ ids) c = ground (arith, Counts-bare_graph ids c)

pub Holds-bare_graph : (ids : List String) → Distinct ids → Holds (bare_graph ids) []
Holds-bare_graph ids d = record {
  lists = Lists-bare_graph ids;
  counts = Counts-bare_graph ids;
  distinct = rw (keys-bare_graph ids) d;
}

-- The identifiers of the nodes that pass their checks are distinct.
pub check_nodes-Distinct :
    (ids : List String) (ns : List WorkflowNode) (all : List String)
    → check_nodes ids ns ≡ returned all
    → Distinct ids
    → Distinct all
unfolding check_nodes
check_nodes-Distinct ids [] all e d = let same : ids ≡ all = cc e in subst Distinct same d
check_nodes-Distinct ids (n ∷ ns) all e d =
    let rest = check_nodes (ids ++ n.node_id ∷ []) ns in
    let inner = require (nonempty n.capability_id) DagError.invalid_capability_id >> rest in
    let (_, e1) =
      passed (nonempty n.node_id) DagError.invalid_node_id
        (require (not (includes n.node_id ids)) DagError.duplicate_node_id >> inner) all e in
    let (new, e2) = passed (not (includes n.node_id ids)) DagError.duplicate_node_id inner all e1 in
    let (_, e3) = passed (nonempty n.capability_id) DagError.invalid_capability_id rest all e2 in
    check_nodes-Distinct (ids ++ n.node_id ∷ []) ns all e3 (
      Distinct-append ids (n.node_id ∷ []) d (refl, tt) (apart n.node_id ids (ground (arith, new))))
  where
    apart :
        (x : String) (xs : List String)
        → includes x xs ≡ false
        → All (λ y. includes y (x ∷ []) ≡ false) xs
    apart x [] h = tt
    apart x (y ∷ ys) h = (ground (arith, h, eq_iff y x, eq_iff x y), apart x ys (ground (arith, h)))

-- A node from which the walk starts.
abbrev pub Root : Degrees → String → Type 0
Root m x = (includes x (keys m) ≡ true) × (degree m x ≡ 0)

Root-next :
    (m : Degrees) (k : String) (d : ℕ) (x : String)
    → includes k (keys m) ≡ false
    → Root m x
    → Root ((k, d) ∷ m) x
unfolding get
Root-next m k d x new r = elim (Bool-cases (k == x)) [
  | inl own ↦ cc (ap (λ z. includes z (keys m)) ((eq_iff k x).0 own), new, r.0)
  | inr other ↦ (ground (arith, r.0, other), ground (arith, r.1, other))
]

pub Root-roots : (m : Degrees) → Distinct (keys m) → All (Root m) (roots m) × Distinct (roots m)
unfolding roots get
Root-roots [] h = (tt, tt)
Root-roots ((k, d) ∷ m) h =
    let (found, distinct) = Root-roots m h.1 in
    let later =
      All-mono (Root m) (Root ((k, d) ∷ m)) (roots m) (λ x. Root-next m k d x h.0) found in
    elim (Bool-cases (eqb d 0)) [
      | inr parents ↦ rw (roots, parents) (later, distinct)
      | inl free ↦
          rw (roots, free)
            (
              ((ground (arith, eq_refl k), ground (arith, eq_refl k, free)), later),
              (All-excludes (Root m) k (roots m) found (λ r. cc (r.0, h.0)), distinct),
            )
    ]
