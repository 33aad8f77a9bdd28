-- ===== src/Scheduler/Queue/RoundRobin.antt =====
-- The choice of a tenant in `findRoundRobinIndex` of
-- apps/desktop-agent/src/scheduler/execution-queue.ts.
use nexus_os_ai_workspace.Base.{
  ℕ, zero, suc, ◌+◌, ◌%◌, ◌≤◌, ◌<◌, String, ◌≡◌, ◌≢◌, refl, ◌∙◌, inl, inr, Bool, true, false, ◌||◌,
  Option, none, some, List, [], ◌∷◌, ◌++◌, ◌==◌, eq_iff, eqb, length, count, includes, arith, any,
  Bool-cases, Option-cases, All, length-append, All-append, All-mono, All-get, get_elem?-lt,
  get_elem?, eq_refl,
}
use nexus_os_ai_workspace.Scheduler.Items.{Item}
use nexus_os_ai_workspace.Scheduler.Queue.Splice.{
  find_index, index_of, find_index-get, find_index-none,
}
use nexus_os_ai_workspace.Scheduler.Queue.{
  of_tenant, visit, unique_tenants, target_tenant, find_round_robin_index,
}

-- No text stands twice in the list.
abbrev pub Distinct : List String → Type 0
Distinct [] = Unit
Distinct (t ∷ ts) = (includes t ts ≡ false) × Distinct ts

includes-append :
    (s : String) (ts us : List String) → includes s (ts ++ us) ≡ (includes s ts || includes s us)
includes-append s [] us = refl
includes-append s (t ∷ ts) us = ground (arith, includes-append s ts us)

Distinct-snoc :
    (ts : List String) (s : String) → Distinct ts → includes s ts ≡ false → Distinct (ts ++ s ∷ [])
Distinct-snoc [] s d h = (refl, tt)
Distinct-snoc (t ∷ ts) s d h = (
  rw (includes-append t ts (s ∷ [])) (ground (arith, eq_iff t s, eq_iff s t)),
  Distinct-snoc ts s d.1 (ground arith),
)

visit-Distinct : (seen : List String) (t : String) → Distinct seen → Distinct (visit seen t)
visit-Distinct seen t d = elim (Bool-cases (includes t seen)) [
  | inl old ↦ rw old d
  | inr new ↦ rw new (Distinct-snoc seen t d new)
]

visit-has : (seen : List String) (t : String) → includes t (visit seen t) ≡ true
visit-has seen t = ground (arith, includes-append t seen (t ∷ []), eq_refl t)

visit-All :
    (P : String → Type 0) (seen : List String) (t : String)
    → All P seen
    → P t
    → All P (visit seen t)
visit-All P seen t h p = elim (Bool-cases (includes t seen)) [
  | inl old ↦ rw old h
  | inr new ↦ rw new (All-append P seen (t ∷ []) h (p, tt))
]

-- The tenants that are collected are distinct.
unique_tenants-Distinct :
    (seen : List String) (items : List Item) → Distinct seen → Distinct (unique_tenants seen items)
unfolding unique_tenants
unique_tenants-Distinct seen [] d = d
unique_tenants-Distinct seen (x ∷ xs) d =
    unique_tenants-Distinct (visit seen x.tenant_id) xs (visit-Distinct seen x.tenant_id d)

-- They are the tenants of items.
unique_tenants-All :
    (P : String → Type 0) (seen : List String) (items : List Item)
    → All P seen
    → All (λ x. P x.tenant_id) items
    → All P (unique_tenants seen items)
unfolding unique_tenants
unique_tenants-All P seen [] h k = h
unique_tenants-All P seen (x ∷ xs) h k =
    unique_tenants-All P (visit seen x.tenant_id) xs (visit-All P seen x.tenant_id h k.0) k.1

-- Collecting never drops a tenant.
unique_tenants-length :
    (seen : List String) (items : List Item) → length seen ≤ length (unique_tenants seen items)
unfolding unique_tenants
unique_tenants-length seen [] = omega arith
unique_tenants-length seen (x ∷ xs) = ground (
  arith,
  unique_tenants-length (visit seen x.tenant_id) xs,
  length-append seen (x.tenant_id ∷ []),
)

unique_tenants-nonempty : (x : Item) (xs : List Item) → 1 ≤ length (unique_tenants [] (x ∷ xs))
unfolding unique_tenants
unique_tenants-nonempty x xs = unique_tenants-length (x.tenant_id ∷ []) xs

own_tenant : (items : List Item) → All (λ x. any (of_tenant x.tenant_id) items ≡ true) items
own_tenant [] = tt
own_tenant (x ∷ xs) = (
  ground (arith, eq_refl x.tenant_id),
  All-mono (λ (y : Item). any (of_tenant y.tenant_id) xs ≡ true)
      (λ (y : Item). any (of_tenant y.tenant_id) (x ∷ xs) ≡ true) xs (λ y h. ground arith)
      (own_tenant xs),
)

get_elem?-includes :
    (ts : List String) (i : ℕ) (t : String) → get_elem? ts i ≡ some t → includes t ts ≡ true
get_elem?-includes [] i t h = cc
get_elem?-includes (x ∷ xs) zero t h = ground (arith, eq_iff x t)
get_elem?-includes (x ∷ xs) (suc i) t h = ground (arith, get_elem?-includes xs i t h)

-- In a list of distinct texts a text stands where `indexOf` finds it.
Distinct-index :
    (ts : List String) (i : ℕ) (t : String)
    → Distinct ts
    → get_elem? ts i ≡ some t
    → index_of t ts ≡ some i
unfolding index_of
Distinct-index [] i t d h = cc
Distinct-index (x ∷ xs) zero t d h = ground (arith, eq_iff x t)
Distinct-index (x ∷ xs) (suc i) t d h =
    ground (arith, eq_iff x t, Distinct-index xs i t d.1 h, get_elem?-includes xs i t h)

visit-keeps :
    (t : String) (seen : List String) (u : String)
    → includes t seen ≡ true
    → includes t (visit seen u) ≡ true
visit-keeps t seen u h = ground (arith, includes-append t seen (u ∷ []))

unique_tenants-keeps :
    (t : String) (seen : List String) (items : List Item)
    → includes t seen ≡ true
    → includes t (unique_tenants seen items) ≡ true
unfolding unique_tenants
unique_tenants-keeps t seen [] h = h
unique_tenants-keeps t seen (x ∷ xs) h =
    unique_tenants-keeps t (visit seen x.tenant_id) xs (visit-keeps t seen x.tenant_id h)

-- Every tenant with an item is collected.
unique_tenants-collects :
    (seen : List String) (items : List Item)
    → All (λ x. includes x.tenant_id (unique_tenants seen items) ≡ true) items
unfolding unique_tenants
unique_tenants-collects seen [] = tt
unique_tenants-collects seen (x ∷ xs) = (
  unique_tenants-keeps x.tenant_id (visit seen x.tenant_id) xs (visit-has seen x.tenant_id),
  unique_tenants-collects (visit seen x.tenant_id) xs,
)

-- The target is one of the tenants.
target_tenant-found :
    (last : Option String) (ts : List String)
    → 1 ≤ length ts
    → (t : String) × (k : ℕ) × (target_tenant last ts ≡ some t) × (get_elem? ts k ≡ some t)
unfolding target_tenant
target_tenant-found last [] h = absurd (omega arith)
target_tenant-found none (t ∷ ts) h = (t, 0, refl, refl)
target_tenant-found (some last) (t ∷ ts) h = elim (Bool-cases (last == "")) [
  | inl blank ↦ (t, 0, rw blank, refl)
  | inr named ↦ elim (Option-cases (index_of last (t ∷ ts))) [
    | inl absent ↦ (t, 0, rw (named, absent), refl)
    | inr (i, e) ↦
        let (u, found) = get_elem?-lt (t ∷ ts) ((i + 1) % length (t ∷ ts)) (omega arith) in
        (u, (i + 1) % length (t ∷ ts), rw (named, e, found), found)
  ]
]

next_ne : (i n : ℕ) → i < n → 2 ≤ n → (i + 1) % n ≢ i
next_ne i n h k e = grind arith

index_of-lt : (t : String) (ts : List String) (i : ℕ) → index_of t ts ≡ some i → i < length ts
unfolding index_of
index_of-lt t ts i h = (find_index-get (λ u. u == t) ts h).3

-- With two tenants or more the target is not the one served last.
target_tenant-rotates :
    (last t : String) (ts : List String)
    → Distinct ts
    → 2 ≤ length ts
    → last ≢ ""
    → target_tenant (some last) ts ≡ some t
    → t ≢ last
unfolding target_tenant
target_tenant-rotates last t ts d h n e same = elim (Option-cases (index_of last ts)) [
  | inl absent ↦ ground (arith, eq_iff last "", Distinct-index ts 0 t d)
  | inr (i, found) ↦
      let i-lt-n = index_of-lt last ts i found in
      ground (
        arith,
        eq_iff last "",
        Distinct-index ts ((i + 1) % length ts) t d,
        next_ne i (length ts) i-lt-n h,
      )
]

any-eq-false : (p : Item → Bool) (xs : List Item) → count p xs ≡ 0 → any p xs ≡ false
any-eq-false p [] h = refl
any-eq-false p (x ∷ xs) h = ground (arith, any-eq-false p xs)

find_index-some :
    (p : Item → Bool) (xs : List Item) → any p xs ≡ true → (i : ℕ) × (find_index p xs ≡ some i)
find_index-some p xs h = elim (Option-cases (find_index p xs)) [
  | inl e ↦ absurd (ground (arith, find_index-none p xs e, any-eq-false p xs))
  | inr found ↦ found
]

-- A lane that is not empty always serves one of its items.
pub round_robin-serves :
    (last : Option String) (x : Item) (xs : List Item)
    → (i : ℕ) × (item : Item) × (find_round_robin_index last (x ∷ xs) ≡ some i)
      × (get_elem? (x ∷ xs) i ≡ some item)
unfolding find_round_robin_index
round_robin-serves last x xs =
    let ts = unique_tenants [] (x ∷ xs) in
    elim (Bool-cases (eqb (length ts) 1)) [
      | inl one ↦ (0, x, rw (one, find_round_robin_index), refl)
      | inr more ↦
          let (t, k, target, at) = target_tenant-found last ts (unique_tenants-nonempty x xs) in
          let known =
            All-get (λ u. any (of_tenant u) (x ∷ xs) ≡ true) ts k t
              (unique_tenants-All (λ u. any (of_tenant u) (x ∷ xs) ≡ true) [] (x ∷ xs) tt
                (own_tenant (x ∷ xs)))
              at in
          let (i, found) = find_index-some (of_tenant t) (x ∷ xs) known in
          let (item, g, _, _) = find_index-get (of_tenant t) (x ∷ xs) found in
          (i, item, rw (more, target, found), g)
    ]

one_tenant :
    (ts : List String) (a b : String)
    → length ts ≡ 1
    → includes a ts ≡ true
    → includes b ts ≡ true
    → a ≡ b
one_tenant [] a b h p q = absurd (omega arith)
one_tenant (t ∷ []) a b h p q = ground (arith, eq_iff t a, eq_iff t b)
one_tenant (t ∷ u ∷ ts) a b h p q = absurd (omega arith)

-- Some item belongs to another tenant.
abbrev pub HasOther : String → List Item → Type 0
HasOther last items = (k : ℕ) × (y : Item) × (get_elem? items k ≡ some y) × (y.tenant_id ≢ last)

-- While another tenant has an item in the lane, the tenant served last is not served again.
pub round_robin-rotates :
    (last : String) (items : List Item) (i : ℕ) (item : Item)
    → last ≢ ""
    → HasOther last items
    → find_round_robin_index (some last) items ≡ some i
    → get_elem? items i ≡ some item
    → item.tenant_id ≢ last
unfolding find_round_robin_index
round_robin-rotates last [] i item n (k, y, g, other) e at same = cc
round_robin-rotates last (x ∷ xs) i item n (k, y, g, other) e at same =
    let ts = unique_tenants [] (x ∷ xs) in
    let all = unique_tenants-collects [] (x ∷ xs) in
    let mine = All-get (λ (z : Item). includes z.tenant_id ts ≡ true) (x ∷ xs) i item all at in
    let its = All-get (λ (z : Item). includes z.tenant_id ts ≡ true) (x ∷ xs) k y all g in
    elim (Bool-cases (eqb (length ts) 1)) [
      | inl one ↦ other (one_tenant ts y.tenant_id item.tenant_id (ground arith) its mine ∙ same)
      | inr more ↦
          let (t, _, target, _) =
            target_tenant-found (some last) ts (unique_tenants-nonempty x xs) in
          let fresh =
            target_tenant-rotates last t ts (unique_tenants-Distinct [] (x ∷ xs) tt)
              (ground (arith, unique_tenants-nonempty x xs)) n target in
          let found : find_index (of_tenant t) (x ∷ xs) ≡ some i =
            rw (more, target, find_round_robin_index) at e in
          let (z, gz, hit, _) = find_index-get (of_tenant t) (x ∷ xs) found in
          fresh (ground (arith, eq_iff z.tenant_id t))
    ]
