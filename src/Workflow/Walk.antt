-- ===== src/Workflow/Walk.antt =====
-- The graph that the parser of apps/desktop-agent/src/workflow/dag-parser.ts builds, and its walk in
-- tiers. A degree that would fall below 0 stays there; neither is ever a 0 that was reached.
use nexus_os_ai_workspace.Base.{
  ℕ, zero, suc, ◌+◌, ◌-◌, String, Option, none, some, List, [], ◌∷◌, ◌++◌, if◌then◌else◌, eqb, get,
  put, get_or,
}

pub record Graph : Type 0 where
  pub children : List (String × List String)
  pub in_degree : List (String × ℕ)

-- `adjacencyList.get(parent).push(child)` and the degree of the child.
unfoldable pub link : Graph → String → String → Graph
link g parent child = record {
  children = put parent (get_or (get parent g.children) [] ++ child ∷ []) g.children;
  in_degree = put child (get_or (get child g.in_degree) 0 + 1) g.in_degree;
}

-- The nodes without parents, in order.
unfoldable pub roots : List (String × ℕ) → List String
roots [] = []
roots ((k, d) ∷ m) = let rest = roots m in if eqb d 0 then k ∷ rest else rest

-- The loop over the children of a node: the degrees, and the children whose degree reached 0.
unfoldable pub visit_children : List String → List (String × ℕ) → List (String × ℕ) × List String
visit_children [] degrees = (degrees, [])
visit_children (c ∷ cs) degrees =
    let d = get_or (get c degrees) 0 in
    let (degrees', next) = visit_children cs (put c (d - 1) degrees) in
    (degrees', if eqb d 1 then c ∷ next else next)

-- The loop over a tier: the degrees, and the next tier.
unfoldable pub visit_tier :
    List (String × List String) → List String → List (String × ℕ) → List (String × ℕ) × List String
unfolding visit_children
visit_tier children [] degrees = (degrees, [])
visit_tier children (n ∷ ns) degrees =
    let (seen, first) = visit_children (get_or (get n children) []) degrees in
    let (done, rest) = visit_tier children ns seen in (done, first ++ rest)

-- `topologicalOrder` and `executionTiers`.
pub record Order : Type 0 where
  pub nodes : List String
  pub tiers : List (List String)

-- The `while` loop over the tiers; `none` when the fuel runs out with a tier left.
unfoldable pub walk :
    ℕ → List (String × List String) → List String → List (String × ℕ) → Option Order
unfolding visit_tier
walk fuel children [] degrees = some (record { nodes = []; tiers = [] })
walk zero children (n ∷ ns) degrees = none
walk (suc fuel) children (n ∷ ns) degrees =
    let (done, next) = visit_tier children (n ∷ ns) degrees in
    elim (walk fuel children next done) [
      | none ↦ none
      | some o ↦ some (record { nodes = (n ∷ ns) ++ o.nodes; tiers = (n ∷ ns) ∷ o.tiers })
    ]

-- The sum of the degrees: each tier that has a next one lowers it.
unfoldable pub total_degree : List (String × ℕ) → ℕ
total_degree [] = 0
total_degree ((k, d) ∷ m) = d + total_degree m
