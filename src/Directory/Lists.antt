-- ===== src/Directory/Lists.antt =====
-- List functions of services/backend/src/agents/agent-directory.ts: `every`, `new Set`, the values of
-- a map and a stable sort by a number.
use nexus_os_ai_workspace.Base.{
  ℕ, ◌≤◌, ◌≡◌, refl, String, Bool, true, ◌&&◌, List, [], ◌∷◌, ◌++◌, if◌then◌else◌, leb, count,
  includes, All, All-mono, arith, Bool-cases, inl, inr,
}

module _ {ℓ} {A : Type ℓ} where
  abbrev pub every : (A → Bool) → List A → Bool
  every p [] = true
  every p (x ∷ xs) = p x && every p xs

  abbrev pub values : List (String × A) → List A
  values [] = []
  values ((k, a) ∷ m) = a ∷ values m

  abbrev pub keep_entries : (A → Bool) → List (String × A) → List (String × A)
  keep_entries p [] = []
  keep_entries p ((k, a) ∷ m) = let rest = keep_entries p m in if p a then (k, a) ∷ rest else rest

  -- An entry goes before those with a greater number and before its equals, which came later.
  unfoldable pub insert_by : (A → ℕ) → A → List A → List A
  insert_by f x [] = x ∷ []
  insert_by f x (y ∷ ys) =
      let rest = insert_by f x ys in if leb (f x) (f y) then x ∷ y ∷ ys else y ∷ rest

  unfoldable pub sort_by : (A → ℕ) → List A → List A
  unfolding insert_by
  sort_by f [] = []
  sort_by f (x ∷ xs) = insert_by f x (sort_by f xs)

-- `Array.from(new Set(xs))`, after the elements seen so far.
unfoldable pub unique : List String → List String → List String
unique seen [] = seen
unique seen (x ∷ xs) = unique (if includes x seen then seen else seen ++ x ∷ []) xs

module _ {ℓ} {A : Type ℓ} (f : A → ℕ) where
  -- Each entry is at most all that follow.
  abbrev pub SortedBy : List A → Type 0
  SortedBy [] = Unit
  SortedBy (x ∷ xs) = All (λ y. f x ≤ f y) xs × SortedBy xs

  All-insert_by : (P : A → Type 0) (x : A) (ys : List A) → P x → All P ys → All P (insert_by f x ys)
  unfolding insert_by
  All-insert_by P x [] h k = (h, tt)
  All-insert_by P x (y ∷ ys) h k = ground (arith, All-insert_by P x ys h k.1, h, k)

  insert_by-SortedBy : (x : A) (ys : List A) → SortedBy ys → SortedBy (insert_by f x ys)
  unfolding insert_by
  insert_by-SortedBy x [] h = (tt, tt)
  insert_by-SortedBy x (y ∷ ys) h = elim (Bool-cases (leb (f x) (f y))) [
    | inl le ↦
        rw (insert_by, le)
          (
            (
              ground arith,
              All-mono (λ z. f y ≤ f z) (λ z. f x ≤ f z) ys (λ z k. ground (arith, le, k)) h.0,
            ),
            h,
          )
    | inr gt ↦
        rw (insert_by, gt)
          (
            All-insert_by (λ z. f y ≤ f z) x ys (ground (arith, gt)) h.0,
            insert_by-SortedBy x ys h.1,
          )
  ]

  pub sort_by-SortedBy : (xs : List A) → SortedBy (sort_by f xs)
  unfolding sort_by
  sort_by-SortedBy [] = tt
  sort_by-SortedBy (x ∷ xs) = insert_by-SortedBy x (sort_by f xs) (sort_by-SortedBy xs)

  pub All-sort_by : (P : A → Type 0) (xs : List A) → All P xs → All P (sort_by f xs)
  unfolding sort_by
  All-sort_by P [] h = tt
  All-sort_by P (x ∷ xs) h = All-insert_by P x (sort_by f xs) h.0 (All-sort_by P xs h.1)

  -- Sorting only moves entries.
  count-insert_by :
      (p : A → Bool) (x : A) (ys : List A) → count p (insert_by f x ys) ≡ count p (x ∷ ys)
  unfolding insert_by
  count-insert_by p x [] = refl
  count-insert_by p x (y ∷ ys) = ground (arith, count-insert_by p x ys)

  pub count-sort_by : (p : A → Bool) (xs : List A) → count p (sort_by f xs) ≡ count p xs
  unfolding sort_by
  count-sort_by p [] = refl
  count-sort_by p (x ∷ xs) = ground (arith, count-insert_by p x (sort_by f xs), count-sort_by p xs)
