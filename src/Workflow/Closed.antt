-- ===== src/Workflow/Closed.antt =====
-- The walk of apps/desktop-agent/src/workflow/dag-parser.ts leaves no node behind whose parents it
-- has put in order.
use nexus_os_ai_workspace.Base.{
  ℕ, zero, suc, ◌-◌, ◌≤◌, ◌≡◌, refl, ap, ◌∙◌, subst, String, true, ◌||◌, some, List, [], ◌∷◌, ◌++◌,
  arith, Option-cases, Bool-cases, inl, inr, eqb, eqb_iff, ◌==◌, eq_iff, get, put, get_or, All,
  includes, count,
}
use nexus_os_ai_workspace.Workflow.Walk.{Order, visit_children, visit_tier, walk}
use nexus_os_ai_workspace.Workflow.Degrees.{Degrees, degree, degree-put}
use nexus_os_ai_workspace.Workflow.Topology.{
  Links, pending, Ready, Lists, Topological, walked, Walking, Walking-next,
}

includes-append :
    (k : String) (xs ys : List String) → includes k (xs ++ ys) ≡ (includes k xs || includes k ys)
includes-append k [] ys = refl
includes-append k (x ∷ xs) ys = ground (arith, includes-append k xs ys)

pub includes-walked :
    (k : String) (ns done : List String)
    → includes k (walked ns done) ≡ (includes k ns || includes k done)
includes-walked k [] done = refl
includes-walked k (n ∷ ns) done = ground (arith, includes-walked k ns (n ∷ done))

walked-append : (xs ys done : List String) → walked (xs ++ ys) done ≡ walked ys (walked xs done)
walked-append [] ys done = refl
walked-append (x ∷ xs) ys done = walked-append xs ys (x ∷ done)

-- A child whose degree falls to 0 joins the next tier.
joins-visit_children :
    (cs : List String) (m : Degrees) (x : String)
    → let (m', next) = visit_children cs m in
      1 ≤ degree m x → degree m' x ≡ 0 → includes x next ≡ true
unfolding visit_children
joins-visit_children [] m x some_left gone = absurd (omega arith)
joins-visit_children (c ∷ cs) m x some_left gone = ground (
  arith,
  joins-visit_children cs (put c (degree m c - 1) m) x,
  degree-put m c x (degree m c - 1),
  eq_iff c x,
  ap (degree m),
)

joins-visit_tier :
    (children : List (String × List String)) (ns : List String) (m : Degrees) (x : String)
    → let (m', next) = visit_tier children ns m in
      1 ≤ degree m x → degree m' x ≡ 0 → includes x next ≡ true
unfolding visit_tier
joins-visit_tier children [] m x some_left gone = absurd (omega arith)
joins-visit_tier children (n ∷ ns) m x some_left gone =
    let cs = get_or (get n children) [] in
    let (seen, first) = visit_children cs m in
    let (done, rest) = visit_tier children ns seen in
    ground (
      arith,
      joins-visit_children cs m x some_left,
      joins-visit_tier children ns seen x,
      includes-append x first rest,
    )

-- Every node of `ids` without missing parents is done.
abbrev pub Closed : Links → List String → List String → Type 0
Closed links ids done =
    (x : String) → includes x ids ≡ true → Ready links done x → includes x done ≡ true

abbrev pub Met : List String → Degrees → List String → List String → Type 0
Met ids m tier done =
    (x : String) → includes x ids ≡ true → degree m x ≡ 0 → includes x (walked tier done) ≡ true

Met-next :
    (ids : List String) (children : List (String × List String)) (tier : List String) (m : Degrees)
    (done : List String)
    → Met ids m tier done
    → let (m', next) = visit_tier children tier m in Met ids m' next (walked tier done)
Met-next ids children tier m done met x at gone =
    let next = (visit_tier children tier m).1 in
    elim (Bool-cases (eqb (degree m x) 0)) [
      | inl before ↦ ground (
        arith,
        includes-walked x next (walked tier done),
        met x at ((eqb_iff (degree m x) 0).0 before),
      )
      | inr later ↦ ground (
        arith,
        includes-walked x next (walked tier done),
        joins-visit_tier children tier m x (ground (arith, later)) gone,
      )
    ]

pub walk-Closed :
    (links : Links) (ids : List String) (fuel : ℕ) (children : List (String × List String))
    (tier : List String) (m : Degrees) (done : List String) (o : Order)
    → walk fuel children tier m ≡ some o
    → Lists links children
    → Walking links m tier done
    → Met ids m tier done
    → Closed links ids (walked o.nodes done)
unfolding walk
walk-Closed links ids fuel children [] m done o e lists w met =
    let same : record { nodes = []; tiers = [] } ≡ o = cc e in
    subst (λ (z : Order). Closed links ids (walked z.nodes done)) same
      (λ x at ready. met x at (w.counts x ∙ ready))
walk-Closed links ids zero children (n ∷ ns) m done o e lists w met = cc e
walk-Closed links ids (suc fuel) children (n ∷ ns) m done o e lists w met =
    let tier = n ∷ ns in
    let (m', next) = visit_tier children tier m in
    elim (Option-cases (walk fuel children next m')) [
      | inl stuck ↦ cc (rw (walk, stuck) at e)
      | inr (o', ends) ↦
          let same : record { nodes = tier ++ o'.nodes; tiers = tier ∷ o'.tiers } ≡ o =
            cc (rw (walk, ends) at e) in
          subst (λ (z : Order). Closed links ids (walked z.nodes done)) same
            (rw (walked-append tier o'.nodes done) (
              walk-Closed links ids fuel children next m' (walked tier done) o' ends lists
                (Walking-next links children tier m done lists w)
                (Met-next ids children tier m done met)))
    ]

Ready-mono :
    (links : Links) (xs ys : List String) (c : String)
    → All (λ x. includes x ys ≡ true) xs
    → count (pending ys c) links ≤ count (pending xs c) links
Ready-mono [] xs ys c h = omega arith
Ready-mono (e ∷ links) xs ys c h = elim (Bool-cases (includes e.0 xs)) [
  | inl there ↦ ground (arith, there, All-includes e.0 xs there h, Ready-mono links xs ys c h)
  | inr absent ↦ ground (arith, absent, Ready-mono links xs ys c h)
]
  where
    All-includes :
        (x : String) (xs : List String)
        → includes x xs ≡ true
        → All (λ x. includes x ys ≡ true) xs
        → includes x ys ≡ true
    All-includes x [] t a = cc t
    All-includes x (z ∷ zs) t a = elim (Bool-cases (z == x)) [
      | inl same ↦ subst (λ w. includes w ys ≡ true) ((eq_iff z x).0 same) a.0
      | inr other ↦ All-includes x zs (ground (arith, t, other)) a.1
    ]

-- Any order that respects the links leads into what is closed.
pub Closed-covers :
    (links : Links) (ids done seen order : List String)
    → Closed links ids done
    → Topological links seen order
    → All (λ x. includes x ids ≡ true) order
    → All (λ x. includes x done ≡ true) seen
    → All (λ x. includes x done ≡ true) order
Closed-covers links ids done seen [] closed t at h = tt
Closed-covers links ids done seen (c ∷ cs) closed t at h =
    let c_done : includes c done ≡ true =
      closed c at.0 (omega (arith, t.1, Ready-mono links seen done c h)) in
    (c_done, Closed-covers links ids done (c ∷ seen) cs closed t.2 at.1 (c_done, h))
