-- ===== src/Workflow/Complete.antt =====
-- The walk of apps/desktop-agent/src/workflow/dag-parser.ts orders every graph that has an order.
use nexus_os_ai_workspace.Base.{
  ℕ, zero, suc, ◌≤◌, ◌≡◌, refl, subst, String, true, false, some, List, [], ◌∷◌, ◌++◌, arith,
  Option-cases, Bool-cases, inl, inr, eqb, eqb_iff, ◌==◌, eq_iff, eq_refl, get, length, All,
  All-mono, All-append, includes, remove_first, returned,
}
use nexus_os_ai_workspace.Workflow.Walk.{Graph, Order, roots, visit_tier, walk, total_degree}
use nexus_os_ai_workspace.Workflow.{order_of}
use nexus_os_ai_workspace.Workflow.Termination.{walk_ends}
use nexus_os_ai_workspace.Workflow.Degrees.{
  Degrees, degree, Distinct, Freed, falls-visit_tier, Freed-visit_tier, All-excludes,
}
use nexus_os_ai_workspace.Workflow.Topology.{Links, Topological, walked, New, walk-Topological}
use nexus_os_ai_workspace.Workflow.Linked.{Holds, keys, Root, Root-roots}
use nexus_os_ai_workspace.Workflow.Accepted.{Walking-start}
use nexus_os_ai_workspace.Workflow.Closed.{includes-walked, walk-Closed, Closed-covers}

length-remove :
    (x : String) (ys : List String)
    → includes x ys ≡ true
    → suc (length (remove_first (λ y. y == x) ys)) ≡ length ys
length-remove x [] h = cc h
length-remove x (y ∷ ys) h = ground (arith, length-remove x ys)

includes-remove :
    (x z : String) (ys : List String)
    → x == z ≡ false
    → includes z ys ≡ true
    → includes z (remove_first (λ y. y == x) ys) ≡ true
includes-remove x z [] d h = h
includes-remove x z (y ∷ ys) d h =
    ground (arith, includes-remove x z ys d, eq_iff y x, eq_iff y z, eq_iff x z)

All-remove :
    (x : String) (xs ys : List String)
    → includes x xs ≡ false
    → All (λ z. includes z ys ≡ true) xs
    → All (λ z. includes z (remove_first (λ y. y == x) ys) ≡ true) xs
All-remove x [] ys d h = tt
All-remove x (z ∷ zs) ys d h = (
  includes-remove x z ys (ground (arith, d, eq_iff x z, eq_iff z x)) h.0,
  All-remove x zs ys (ground (arith, d)) h.1,
)

-- Distinct texts from a list are no more than the list has.
pigeonhole :
    (xs ys : List String) → Distinct xs → All (λ x. includes x ys ≡ true) xs → length xs ≤ length ys
pigeonhole [] ys d h = omega arith
pigeonhole (x ∷ xs) ys d h =
    let less = pigeonhole xs (remove_first (λ y. y == x) ys) d.1 (All-remove x xs ys d.0 h.1) in
    omega (arith, less, length-remove x ys h.0)

All-includes :
    (P : String → Type 0) (x : String) (xs : List String) → includes x xs ≡ true → All P xs → P x
All-includes P x [] t a = cc t
All-includes P x (z ∷ zs) t a = elim (Bool-cases (z == x)) [
  | inl same ↦ subst P ((eq_iff z x).0 same) a.0
  | inr other ↦ All-includes P x zs (ground (arith, t, other)) a.1
]

Topological-Distinct :
    (links : Links) (done cs : List String)
    → Topological links done cs
    → Distinct cs × All (New done) cs
Topological-Distinct links done [] t = (tt, tt)
Topological-Distinct links done (c ∷ cs) t =
    let (distinct, new) = Topological-Distinct links (c ∷ done) cs t.2 in
    (
      (All-excludes (New (c ∷ done)) c cs new (λ h. ground (arith, h, eq_refl c)), distinct),
      (t.0, All-mono (New (c ∷ done)) (New done) cs (λ x h. ground (arith, h)) new),
    )

abbrev Known : List String → String → Type 0
Known ids x = includes x ids ≡ true

-- A walk meets only nodes with a degree.
walk-Known :
    (ids : List String) (fuel : ℕ) (children : List (String × List String)) (tier : List String)
    (m : Degrees) (o : Order)
    → walk fuel children tier m ≡ some o
    → All (Known ids) tier
    → ((x : String) → 1 ≤ degree m x → Known ids x)
    → All (Known ids) o.nodes
unfolding walk
walk-Known ids fuel children [] m o e at known =
    let same : record { nodes = []; tiers = [] } ≡ o = cc e in
    subst (λ (z : Order). All (Known ids) z.nodes) same tt
walk-Known ids zero children (n ∷ ns) m o e at known = cc e
walk-Known ids (suc fuel) children (n ∷ ns) m o e at known =
    let tier = n ∷ ns in
    let (m', next) = visit_tier children tier m in
    elim (Option-cases (walk fuel children next m')) [
      | inl stuck ↦ cc (rw (walk, stuck) at e)
      | inr (o', ends) ↦
          let same : record { nodes = tier ++ o'.nodes; tiers = tier ∷ o'.tiers } ≡ o =
            cc (rw (walk, ends) at e) in
          let (freed, _) = Freed-visit_tier children tier m in
          subst (λ (z : Order). All (Known ids) z.nodes) same
            (All-append (Known ids) tier o'.nodes at (
              walk-Known ids fuel children next m' o' ends
                (All-mono (Freed m m') (Known ids) next (λ x f. known x f.0) freed)
                (λ x some_left.
                  known x (omega (arith, some_left, falls-visit_tier children tier m x)))))
    ]

keys-Known : (m : Degrees) (x : String) → 1 ≤ degree m x → Known (keys m) x
unfolding get
keys-Known [] x h = absurd (omega arith)
keys-Known ((k, d) ∷ m) x h = ground (arith, h, keys-Known m x)

roots-Met : (m : Degrees) (x : String) → Known (keys m) x → degree m x ≡ 0 → Known (roots m) x
unfolding get roots
roots-Met [] x at h = at
roots-Met ((k, d) ∷ m) x at h = ground (arith, at, h, roots-Met m x)

-- If the degrees and the lists of children of a graph say what its links say, its nodes are
-- distinct, and they can be put in an order in which each stands after its parents, then the
-- walk is not rejected as cyclic: it returns an order of the graph.
pub order_of_complete :
    (g : Graph) (links : Links) (order : List String)
    → Holds g links
    → Topological links [] order
    → All (λ x. includes x (keys g.in_degree) ≡ true) order
    → All (λ x. includes x order ≡ true) (keys g.in_degree)
    → (o : Order) × (order_of (length (keys g.in_degree)) g ≡ returned o)
unfolding order_of
order_of_complete g links order h t at all =
    let m = g.in_degree in
    let fuel = suc (total_degree m) in
    elim (Option-cases (walk fuel g.children (roots m) m)) [
      | inl stuck ↦ absurd (walk_ends fuel g.children (roots m) m (inr (omega arith)) stuck)
      | inr (o, ends) ↦
          let start = Walking-start g links h in
          let met : (x : String)
              → Known (keys m) x
              → degree m x ≡ 0
              → Known (walked (roots m) []) x =
            λ x known free.
              ground (arith, includes-walked x (roots m) [], roots-Met m x known free) in
          let closed =
            walk-Closed links (keys m) fuel g.children (roots m) m [] o ends h.lists start met in
          let covered = Closed-covers links (keys m) (walked o.nodes []) [] order closed t at tt in
          let ordered : All (Known o.nodes) (keys m) =
            All-mono (Known order) (Known o.nodes) (keys m)
              (λ x i. ground (
                arith,
                All-includes (Known (walked o.nodes [])) x order i covered,
                includes-walked x o.nodes [],
              ))
              all in
          let known =
            walk-Known (keys m) fuel g.children (roots m) m o ends
              (All-mono (Root m) (Known (keys m)) (roots m) (λ x r. r.0)
                (Root-roots m h.distinct).0)
              (keys-Known m) in
          let distinct =
            (Topological-Distinct links [] o.nodes
              (walk-Topological links fuel g.children (roots m) m [] o ends h.lists start)).0 in
          let up = pigeonhole (keys m) o.nodes h.distinct ordered in
          let down = pigeonhole o.nodes (keys m) distinct known in
          let same : eqb (length o.nodes) (length (keys m)) ≡ true =
            (eqb_iff (length o.nodes) (length (keys m))).1 (omega arith) in
          let accepted : order_of (length (keys m)) g ≡ returned o =
            rw (order_of, ends, same) refl in
          (o, accepted)
    ]
