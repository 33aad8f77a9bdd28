-- ===== src/Workflow/Degrees.antt =====
-- What the walk of apps/desktop-agent/src/workflow/dag-parser.ts does to the degrees.
use nexus_os_ai_workspace.Base.{
  ℕ, ◌-◌, ◌≤◌, ◌≡◌, refl, ap, subst, String, false, ◌||◌, List, [], ◌∷◌, ◌++◌, arith, Bool-cases,
  inl, inr, if◌then◌else◌, eqb, eqb_iff, ◌==◌, eq_iff, eq_refl, get, put, get_or, get-put, All,
  All-mono, All-append, includes, count,
}
use nexus_os_ai_workspace.Workflow.Walk.{visit_children, visit_tier}

abbrev pub Degrees : Type 0
Degrees = List (String × ℕ)

abbrev pub degree : Degrees → String → ℕ
degree m c = get_or (get c m) 0

-- No text twice.
abbrev pub Distinct : List String → Type 0
Distinct [] = Unit
Distinct (x ∷ xs) = (includes x xs ≡ false) × Distinct xs

-- A child of which the walk of a tier reaches the last parent: its degree is above 0 before and 0
-- afterwards.
abbrev pub Freed : Degrees → Degrees → String → Type 0
Freed m m' c = (1 ≤ degree m c) × (degree m' c ≡ 0)

pub degree-put :
    (m : Degrees) (c x : String) (d : ℕ) → degree (put c d m) x ≡ (if c == x then d else degree m x)
degree-put m c x d = ground (arith, get-put c x d m)

-- Every occurrence among the children takes one off, down to 0.
pub degree-visit_children :
    (cs : List String) (m : Degrees) (x : String)
    → degree (visit_children cs m).0 x ≡ degree m x - count (λ c. c == x) cs
unfolding visit_children
degree-visit_children [] m x = omega arith
degree-visit_children (c ∷ cs) m x = ground (
  arith,
  degree-visit_children cs (put c (degree m c - 1) m) x,
  degree-put m c x (degree m c - 1),
  ap (degree m),
  eq_iff c x,
)

pub falls-visit_children :
    (cs : List String) (m : Degrees) (x : String) → degree (visit_children cs m).0 x ≤ degree m x
falls-visit_children cs m x = omega (arith, degree-visit_children cs m x)

pub falls-visit_tier :
    (children : List (String × List String)) (ns : List String) (m : Degrees) (x : String)
    → degree (visit_tier children ns m).0 x ≤ degree m x
unfolding visit_tier
falls-visit_tier children [] m x = omega arith
falls-visit_tier children (n ∷ ns) m x =
    let cs = get_or (get n children) [] in
    omega
      (arith, falls-visit_children cs m x, falls-visit_tier children ns (visit_children cs m).0 x)

-- A text at which a property fails is not in a list where it holds.
pub All-excludes :
    (P : String → Type 0) (x : String) (xs : List String) → All P xs → ¬ P x → includes x xs ≡ false
All-excludes P x [] h unlike = refl
All-excludes P x (y ∷ ys) h unlike = elim (Bool-cases (y == x)) [
  | inl same ↦ absurd (unlike (subst P ((eq_iff y x).0 same) h.0))
  | inr other ↦ ground (arith, other, All-excludes P x ys h.1 unlike)
]

pub Distinct-append :
    (xs ys : List String)
    → Distinct xs
    → Distinct ys
    → All (λ x. includes x ys ≡ false) xs
    → Distinct (xs ++ ys)
Distinct-append [] ys dx dy apart = dy
Distinct-append (x ∷ xs) ys dx dy apart =
    (ground (arith, includes-append x xs ys, dx.0, apart.0), Distinct-append xs ys dx.1 dy apart.1)
  where
    includes-append :
        (k : String) (xs ys : List String)
        → includes k (xs ++ ys) ≡ (includes k xs || includes k ys)
    includes-append k [] ys = refl
    includes-append k (x ∷ xs) ys = ground (arith, includes-append k xs ys)

Freed-visit_children :
    (cs : List String) (m : Degrees)
    → let (m', next) = visit_children cs m in All (Freed m m') next × Distinct next
unfolding visit_children
Freed-visit_children [] m = (tt, tt)
Freed-visit_children (c ∷ cs) m =
    let d = degree m c in
    let m1 = put c (d - 1) m in
    let (m', next) = visit_children cs m1 in
    let (freed, distinct) = Freed-visit_children cs m1 in
    let weaker : All (Freed m m') next =
      All-mono (Freed m1 m') (Freed m m') next
        (λ x h. (ground (arith, h.0, degree-put m c x (d - 1), eq_iff c x, ap (degree m)), h.1))
        freed in
    elim (Bool-cases (eqb d 1)) [
      | inr many ↦ rw (visit_children, many) (weaker, distinct)
      | inl last ↦
          let one : d ≡ 1 = (eqb_iff d 1).0 last in
          let gone : degree m1 c ≡ 0 = ground (arith, degree-put m c c (d - 1), eq_refl c, one) in
          rw (visit_children, last)
            (
              ((omega (arith, one), omega (arith, gone, falls-visit_children cs m1 c)), weaker),
              (All-excludes (Freed m1 m') c next freed (λ h. omega (arith, h.0, gone)), distinct),
            )
    ]

-- The next tier: each node in it lost its last parent in this one, and stands there once.
pub Freed-visit_tier :
    (children : List (String × List String)) (ns : List String) (m : Degrees)
    → let (m', next) = visit_tier children ns m in All (Freed m m') next × Distinct next
unfolding visit_tier
Freed-visit_tier children [] m = (tt, tt)
Freed-visit_tier children (n ∷ ns) m =
    let cs = get_or (get n children) [] in
    let (seen, first) = visit_children cs m in
    let (done, rest) = visit_tier children ns seen in
    let (freed, distinct) = Freed-visit_children cs m in
    let (freed', distinct') = Freed-visit_tier children ns seen in
    (
      All-append (Freed m done) first rest
          (All-mono (Freed m seen) (Freed m done) first
            (λ x h. (h.0, omega (arith, h.1, falls-visit_tier children ns seen x))) freed)
          (All-mono (Freed seen done) (Freed m done) rest
            (λ x h. (omega (arith, h.0, falls-visit_children cs m x), h.1)) freed'),
      Distinct-append first rest distinct distinct' (
          All-mono (Freed m seen) (λ x. includes x rest ≡ false) first
            (λ x h. All-excludes (Freed seen done) x rest freed' (λ k. omega (arith, k.0, h.1)))
            freed),
    )
