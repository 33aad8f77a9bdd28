-- ===== src/Workflow/Topology.antt =====
-- The walk of apps/desktop-agent/src/workflow/dag-parser.ts puts a node after all its parents.
use nexus_os_ai_workspace.Base.{
  ℕ, zero, suc, ◌+◌, ◌≤◌, ◌≡◌, ap, ◌∙◌, sym, subst, String, Bool, false, not, ◌&&◌, some, List, [],
  ◌∷◌, ◌++◌, arith, Option-cases, Bool-cases, inl, inr, ◌==◌, eq_iff, get, get_or, All, All-mono,
  includes, count,
}
use nexus_os_ai_workspace.Workflow.Walk.{Order, visit_children, visit_tier, walk}
use nexus_os_ai_workspace.Workflow.Degrees.{
  Degrees, degree, Distinct, Freed, degree-visit_children, falls-visit_tier, Freed-visit_tier,
  All-excludes,
}

-- The links of a graph, each from a parent to a child.
abbrev pub Links : Type 0
Links = List (String × String)

abbrev pub is_link : String → String → String × String → Bool
is_link p c e = e.0 == p && e.1 == c

-- A link to `c` from a parent that is not among the nodes `done`.
abbrev pub pending : List String → String → String × String → Bool
pending done c e = e.1 == c && not (includes e.0 done)

-- No parent of `c` is missing among the nodes `done`.
abbrev pub Ready : Links → List String → String → Type 0
Ready links done c = count (pending done c) links ≡ 0

-- After the nodes `done`, each node stands once, and after all its parents.
abbrev pub Topological : Links → List String → List String → Type 0
Topological links done [] = Unit
Topological links done (c ∷ cs) =
    (includes c done ≡ false) × Ready links done c × Topological links (c ∷ done) cs

-- The lists of children and the degrees say what the links say.
abbrev pub Lists : Links → List (String × List String) → Type 0
Lists links children =
    (p c : String) → count (λ x. x == c) (get_or (get p children) []) ≡ count (is_link p c) links

abbrev pub Counts : Links → Degrees → List String → Type 0
Counts links m done = (c : String) → degree m c ≡ count (pending done c) links

includes-eq : (x y : String) (done : List String) → x ≡ y → includes x done ≡ includes y done
includes-eq x y done e = ap (λ z. includes z done) e

count-pending :
    (links : Links) (done : List String) (p c : String)
    → includes p done ≡ false
    → count (pending done c) links ≡ count (pending (p ∷ done) c) links + count (is_link p c) links
count-pending [] done p c new = omega arith
count-pending (e ∷ links) done p c new = elim (Bool-cases (e.0 == p)) [
  | inl own ↦
      let at : e.0 ≡ p = (eq_iff e.0 p).0 own in
      ground
        (arith, new, own, eq_iff p e.0, includes-eq e.0 p done at, count-pending links done p c new)
  | inr other ↦ ground (arith, other, eq_iff p e.0, eq_iff e.0 p, count-pending links done p c new)
]

-- The tier that was walked, put before the nodes done.
abbrev pub walked : List String → List String → List String
walked [] done = done
walked (n ∷ ns) done = walked ns (n ∷ done)

pub All-walked :
    (P : String → Type 0) (ns done : List String) → All P ns → All P done → All P (walked ns done)
All-walked P [] done h k = k
All-walked P (n ∷ ns) done h k = All-walked P ns (n ∷ done) h.1 (h.0, k)

abbrev pub New : List String → String → Type 0
New done x = includes x done ≡ false

pub New-next :
    (n : String) (ns done : List String)
    → includes n ns ≡ false
    → All (New done) ns
    → All (New (n ∷ done)) ns
New-next n [] done d h = tt
New-next n (x ∷ ns) done d h =
    (ground (arith, d, h.0, eq_iff n x, eq_iff x n), New-next n ns done (ground (arith, d)) h.1)

pub Counts-tier :
    (links : Links) (children : List (String × List String)) (ns : List String) (m : Degrees)
    (done : List String)
    → Lists links children
    → Distinct ns
    → All (New done) ns
    → Counts links m done
    → Counts links (visit_tier children ns m).0 (walked ns done)
unfolding visit_tier
Counts-tier links children [] m done lists d new h = h
Counts-tier links children (n ∷ ns) m done lists d new h =
    let cs = get_or (get n children) [] in
    Counts-tier links children ns (visit_children cs m).0 (n ∷ done) lists d.1
      (New-next n ns done d.0 new.1)
      (λ c.
        omega
          (arith, degree-visit_children cs m c, h c, lists n c, count-pending links done n c new.0))

Ready-next :
    (links : Links) (n : String) (done : List String) (c : String)
    → count (pending (n ∷ done) c) links ≤ count (pending done c) links
Ready-next [] n done c = omega arith
Ready-next (e ∷ links) n done c = ground (arith, Ready-next links n done c)

Topological-tier :
    (links : Links) (ns rest done : List String)
    → Distinct ns
    → All (New done) ns
    → All (Ready links done) ns
    → Topological links (walked ns done) rest
    → Topological links done (ns ++ rest)
Topological-tier links [] rest done d new ready h = h
Topological-tier links (n ∷ ns) rest done d new ready h = (
  new.0,
  ready.0,
  Topological-tier links ns rest (n ∷ done) d.1 (New-next n ns done d.0 new.1)
      (All-mono (Ready links done) (Ready links (n ∷ done)) ns
        (λ c k. omega (arith, k, Ready-next links n done c)) ready.1)
      h,
)

abbrev pub Spent : Degrees → String → Type 0
Spent m x = degree m x ≡ 0

-- A walk before a tier: the degrees count the links from nodes that are not done, and the nodes of
-- the tier are new and have no such links.
pub record Walking (links : Links) (m : Degrees) (tier done : List String) : Type 0 where
  pub counts : Counts links m done
  pub distinct : Distinct tier
  pub new : All (New done) tier
  pub spent : All (Spent m) tier
  pub old : All (Spent m) done

pub Walking-next :
    (links : Links) (children : List (String × List String)) (tier : List String) (m : Degrees)
    (done : List String)
    → Lists links children
    → Walking links m tier done
    → let (m', next) = visit_tier children tier m in Walking links m' next (walked tier done)
Walking-next links children tier m done lists w =
    let (m', next) = visit_tier children tier m in
    let (freed, distinct) = Freed-visit_tier children tier m in
    let done' = walked tier done in
    let spent' = All-walked (Spent m) tier done w.spent w.old in
    record {
      counts = Counts-tier links children tier m done lists w.distinct w.new w.counts;
      distinct = distinct;
      new =
          All-mono (Freed m m') (New done') next
            (λ x f. All-excludes (Spent m) x done' spent' (λ k. omega (arith, f.0, k))) freed;
      spent = All-mono (Freed m m') (Spent m') next (λ x f. f.1) freed;
      old =
          All-mono (Spent m) (Spent m') done'
            (λ x k. omega (arith, k, falls-visit_tier children tier m x)) spent';
    }

-- What a walk that ends has put in order.
pub walk-Topological :
    (links : Links) (fuel : ℕ) (children : List (String × List String)) (tier : List String)
    (m : Degrees) (done : List String) (o : Order)
    → walk fuel children tier m ≡ some o
    → Lists links children
    → Walking links m tier done
    → Topological links done o.nodes
unfolding walk
walk-Topological links fuel children [] m done o e lists w =
    let same : record { nodes = []; tiers = [] } ≡ o = cc e in
    subst (λ (x : Order). Topological links done x.nodes) same tt
walk-Topological links zero children (n ∷ ns) m done o e lists w = cc e
walk-Topological links (suc fuel) children (n ∷ ns) m done o e lists w =
    let tier = n ∷ ns in
    let (m', next) = visit_tier children tier m in
    elim (Option-cases (walk fuel children next m')) [
      | inl stuck ↦ cc (rw (walk, stuck) at e)
      | inr (o', ends) ↦
          let same : record { nodes = tier ++ o'.nodes; tiers = tier ∷ o'.tiers } ≡ o =
            cc (rw (walk, ends) at e) in
          subst (λ (x : Order). Topological links done x.nodes) same
            (Topological-tier links tier o'.nodes done w.distinct w.new
              (All-mono (Spent m) (Ready links done) tier (λ c k. sym (w.counts c) ∙ k) w.spent)
              (walk-Topological links fuel children next m' (walked tier done) o' ends lists
                (Walking-next links children tier m done lists w)))
    ]
