-- ===== src/Scheduler/Queue/Splice.antt =====
-- Array positions: `findIndex`, `indexOf`, `items[i]` and `splice(i, 1)` on lists, and how they agree.
use nexus_os_ai_workspace.Base.{
  get_elem?, length-append, count-append, All, ◌++◌, ◌∙◌, ℕ, zero, suc, ◌+◌, ◌<◌, String, ◌≡◌, refl,
  ap, Bool, true, Option, none, some, List, [], ◌∷◌, ◌==◌, if◌then◌else◌, length, count, arith,
  Bool-cases, inl, inr,
}

abbrev bump_index : Option ℕ → Option ℕ
bump_index none = none
bump_index (some i) = some (suc i)

bump_index-some :
    (o : Option ℕ) {i : ℕ} → bump_index o ≡ some i → (j : ℕ) × (o ≡ some j) × (i ≡ suc j)
bump_index-some none h = cc
bump_index-some (some j) h = (j, refl, ground arith)

module _ {ℓ} {A : Type ℓ} where
  unfoldable pub find_index : (A → Bool) → List A → Option ℕ
  find_index p [] = none
  find_index p (x ∷ xs) = if p x then some 0 else bump_index (find_index p xs)

  abbrev keep_first : A → Option (A × List A) → Option (A × List A)
  keep_first x none = none
  keep_first x (some (y, ys)) = some (y, x ∷ ys)

  unfoldable pub splice_at : ℕ → List A → Option (A × List A)
  splice_at i [] = none
  splice_at zero (x ∷ xs) = some (x, xs)
  splice_at (suc i) (x ∷ xs) = keep_first x (splice_at i xs)

  keep_first-some :
      (x : A) (o : Option (A × List A)) {y : A} {zs : List A}
      → keep_first x o ≡ some (y, zs)
      → (ys : List A) × (o ≡ some (y, ys)) × (zs ≡ x ∷ ys)
  keep_first-some x none h = cc
  keep_first-some x (some (y, ys)) h = (ys, ground arith, ground arith)

  -- `splice(i, 1)` takes out what `items[i]` reads, and nothing else.
  pub splice_at-split :
      (i : ℕ) (xs : List A) {x : A} {ys : List A}
      → splice_at i xs ≡ some (x, ys)
      → (before after : List A) × (xs ≡ before ++ x ∷ after)
        × (ys ≡ before ++ after)
        × (get_elem? xs i ≡ some x)
  unfolding splice_at
  splice_at-split i [] h = cc
  splice_at-split zero (x ∷ xs) h = ([], xs, ground arith, ground arith, ground arith)
  splice_at-split (suc i) (x ∷ xs) h =
      let (ys, e, same) = keep_first-some x (splice_at i xs) h in
      let (before, after, whole, rest, read) = splice_at-split i xs e in
      (x ∷ before, after, ap (◌∷◌ x) whole, same ∙ ap (◌∷◌ x) rest, read)

  pub splice_at-get :
      (i : ℕ) (xs : List A) {x : A} {ys : List A}
      → splice_at i xs ≡ some (x, ys)
      → get_elem? xs i ≡ some x
  splice_at-get i xs h = (splice_at-split i xs h).4

  pub splice_at-length :
      (i : ℕ) (xs : List A) {x : A} {ys : List A}
      → splice_at i xs ≡ some (x, ys)
      → length xs ≡ suc (length ys)
  splice_at-length i xs {x} h =
      let (before, after, whole, rest, _) = splice_at-split i xs h in
      rw (whole, rest, length-append before (x ∷ after), length-append before after) (omega arith)

  pub splice_at-count :
      (p : A → Bool) (i : ℕ) (xs : List A) {x : A} {ys : List A}
      → splice_at i xs ≡ some (x, ys)
      → count p xs ≡ count p ys + (if p x then 1 else 0)
  splice_at-count p i xs {x} h =
      let (before, after, whole, rest, _) = splice_at-split i xs h in
      rw (whole, rest, count-append p before (x ∷ after), count-append p before after)
        (ground arith)

  pub splice_at-All {κ} :
      (P : A → Type κ) (i : ℕ) (xs : List A) {x : A} {ys : List A}
      → splice_at i xs ≡ some (x, ys)
      → All P xs
      → P x × All P ys
  unfolding splice_at
  splice_at-All P i [] h a = cc
  splice_at-All P zero (x ∷ xs) h a = ground arith
  splice_at-All P (suc i) (x ∷ xs) h a =
      let (ys, e, same) = keep_first-some x (splice_at i xs) h in
      let (px, rest) = splice_at-All P i xs e a.1 in (px, rw same (a.0, rest))

  -- Without an item to take out, the position lies past the end.
  pub splice_at-none : (i : ℕ) (xs : List A) → splice_at i xs ≡ none → get_elem? xs i ≡ none
  unfolding splice_at
  splice_at-none i [] h = refl
  splice_at-none zero (x ∷ xs) h = cc
  splice_at-none (suc i) (x ∷ xs) h = ground (arith, splice_at-none i xs)

  -- What `findIndex` finds is there and passes the test.
  pub find_index-get :
      (p : A → Bool) (xs : List A) {i : ℕ}
      → find_index p xs ≡ some i
      → (x : A) × (get_elem? xs i ≡ some x) × (p x ≡ true) × (i < length xs)
  unfolding find_index
  find_index-get p [] h = cc
  find_index-get p (x ∷ xs) {i} h = elim (Bool-cases (p x)) [
    | inl t ↦ let e : i ≡ 0 = ground arith in (x, rw e, t, ground arith)
    | inr f ↦
        let (j, e, same) = bump_index-some (find_index p xs) (rw f at h) in
        let (y, g, t, lt) = find_index-get p xs e in (y, rw same g, t, omega arith)
  ]

  pub find_index-none : (p : A → Bool) (xs : List A) → find_index p xs ≡ none → count p xs ≡ 0
  unfolding find_index
  find_index-none p [] h = refl
  find_index-none p (x ∷ xs) h = ground (arith, find_index-none p xs)

  pub splice_at-some :
      (i : ℕ) (xs : List A) {x : A}
      → get_elem? xs i ≡ some x
      → (ys : List A) × (splice_at i xs ≡ some (x, ys))
  unfolding splice_at
  splice_at-some i [] h = cc
  splice_at-some zero (x ∷ xs) h = (xs, ground arith)
  splice_at-some (suc i) (x ∷ xs) h = let (ys, e) = splice_at-some i xs h in (x ∷ ys, rw e)

unfoldable pub index_of : String → List String → Option ℕ
unfolding find_index
index_of s ss = find_index (λ t. t == s) ss
