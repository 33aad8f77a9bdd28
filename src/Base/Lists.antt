-- ===== src/Base/Lists.antt =====
-- Lists measured by native numbers, and JavaScript's array methods as functions on lists: `filter`,
-- `some`, `every`, `find`, `includes`, `findIndex` with `splice`.
use Prim.Native.Nat.{ℕ, zero, suc, ◌+◌, ◌≤◌, ◌<◌}
use Prim.Native.String.{String}
use mathlib.Core.Path.{◌≡◌, refl}
use mathlib.Core.Logic.{inl, inr}
use mathlib.Core.Bool.{Bool, true, false, ◌||◌}
use mathlib.Core.Option.{Option, none, some}
use mathlib.Core.List.{List, [], ◌∷◌, ◌++◌}
use text.Mathlib.Text.{◌==◌}
use native.Mathlib.Omega.{arith}
use nexus_os_ai_workspace.Base.Tests.{if◌then◌else◌, Bool-cases}

module _ {ℓ} {A : Type ℓ} where
  abbrev pub length : List A → ℕ
  length [] = 0
  length (x ∷ xs) = suc (length xs)

  abbrev pub take : ℕ → List A → List A
  take zero xs = []
  take (suc n) [] = []
  take (suc n) (x ∷ xs) = x ∷ take n xs

  abbrev pub drop : ℕ → List A → List A
  drop zero xs = xs
  drop (suc n) [] = []
  drop (suc n) (x ∷ xs) = drop n xs

module _ {ℓ} {A : Type ℓ} where
  -- `xs[i]`, `none` past the end.
  abbrev pub get_elem? : List A → ℕ → Option A
  get_elem? [] i = none
  get_elem? (x ∷ xs) zero = some x
  get_elem? (x ∷ xs) (suc i) = get_elem? xs i

module _ {ℓ} {A : Type ℓ} (p : A → Bool) where
  abbrev pub filter : List A → List A
  filter [] = []
  filter (x ∷ xs) = let rest = filter xs in if p x then x ∷ rest else rest

  abbrev pub any : List A → Bool
  any [] = false
  any (x ∷ xs) = p x || any xs

  abbrev pub count : List A → ℕ
  count [] = 0
  count (x ∷ xs) = let rest = count xs in if p x then suc rest else rest

  -- The first entry that passes the test.
  abbrev pub find : List A → Option A
  find [] = none
  find (x ∷ xs) = if p x then some x else find xs

  -- `splice(findIndex(p), 1)`: the list without the first entry that passes the test.
  abbrev pub remove_first : List A → List A
  remove_first [] = []
  remove_first (x ∷ xs) = if p x then xs else x ∷ remove_first xs

abbrev pub includes : String → List String → Bool
includes s xs = any (λ x. x == s) xs

-- Every entry has the property.
abbrev pub All {ℓ κ} : {A : Type ℓ} → (A → Type κ) → List A → Type κ
All P [] = Unit
All P (x ∷ xs) = P x × All P xs

module _ {ℓ} {A : Type ℓ} where
  pub length-append : (xs ys : List A) → length (xs ++ ys) ≡ length xs + length ys
  length-append [] ys = omega arith
  length-append (x ∷ xs) ys = omega (arith, length-append xs ys)

module _ {ℓ} {A : Type ℓ} (p : A → Bool) where
  pub length-filter-le : (xs : List A) → length (filter p xs) ≤ length xs
  length-filter-le [] = omega arith
  length-filter-le (x ∷ xs) = ground (arith, length-filter-le xs)

  pub length-filter : (xs : List A) → length (filter p xs) ≡ count p xs
  length-filter [] = refl
  length-filter (x ∷ xs) = ground (arith, length-filter xs)

  pub count-append : (xs ys : List A) → count p (xs ++ ys) ≡ count p xs + count p ys
  count-append [] ys = omega arith
  count-append (x ∷ xs) ys = ground (arith, count-append xs ys)

  pub count-le-length : (xs : List A) → count p xs ≤ length xs
  count-le-length [] = omega arith
  count-le-length (x ∷ xs) = ground (arith, count-le-length xs)

  pub length-remove_first-le : (xs : List A) → length (remove_first p xs) ≤ length xs
  length-remove_first-le [] = omega arith
  length-remove_first-le (x ∷ xs) = ground (arith, length-remove_first-le xs)

  -- A hit is removed once.
  pub length-remove_first :
      (xs : List A) (a : A) → find p xs ≡ some a → suc (length (remove_first p xs)) ≡ length xs
  length-remove_first [] a h = ground arith
  length-remove_first (x ∷ xs) a h = ground (arith, length-remove_first xs a)

  pub find-passes : (xs : List A) (a : A) → find p xs ≡ some a → p a ≡ true
  find-passes [] a h = ground arith
  find-passes (x ∷ xs) a h = ground (arith, find-passes xs a)

  -- No hit: the test fails everywhere.
  pub find-none : (xs : List A) → find p xs ≡ none → count p xs ≡ 0
  find-none [] h = refl
  find-none (x ∷ xs) h = ground (arith, find-none xs)

module _ {ℓ} {A : Type ℓ} (p q : A → Bool) where
  -- What a removal does to the number of entries that pass another test.
  pub count-remove_first :
      (xs : List A) (a : A)
      → find p xs ≡ some a
      → count q xs ≡ count q (remove_first p xs) + (if q a then 1 else 0)
  count-remove_first [] a h = ground arith
  count-remove_first (x ∷ xs) a h = ground (arith, count-remove_first xs a)

  pub count-remove_first-le : (xs : List A) → count q (remove_first p xs) ≤ count q xs
  count-remove_first-le [] = omega arith
  count-remove_first-le (x ∷ xs) = ground (arith, count-remove_first-le xs)

  pub count-filter-le : (xs : List A) → count q (filter p xs) ≤ count q xs
  count-filter-le [] = omega arith
  count-filter-le (x ∷ xs) = ground (arith, count-filter-le xs)

module _ {ℓ κ} {A : Type ℓ} (P : A → Type κ) where
  pub All-append : (xs ys : List A) → All P xs → All P ys → All P (xs ++ ys)
  All-append [] ys h k = k
  All-append (x ∷ xs) ys h k = (h.0, All-append xs ys h.1 k)

  pub All-filter : (p : A → Bool) (xs : List A) → All P xs → All P (filter p xs)
  All-filter p [] h = tt
  All-filter p (x ∷ xs) h = ground (arith, All-filter p xs h.1)

  pub All-remove_first : (p : A → Bool) (xs : List A) → All P xs → All P (remove_first p xs)
  All-remove_first p [] h = tt
  All-remove_first p (x ∷ xs) h = ground (arith, All-remove_first p xs h.1)

  pub All-find : (p : A → Bool) (xs : List A) (a : A) → All P xs → find p xs ≡ some a → P a
  All-find p [] a h e = ground arith
  All-find p (x ∷ xs) a h e = elim (Bool-cases (p x)) [
    | inl t ↦ ground arith
    | inr f ↦ All-find p xs a h.1 (ground arith)
  ]

  pub All-get : (xs : List A) (i : ℕ) (a : A) → All P xs → get_elem? xs i ≡ some a → P a
  All-get [] i a h e = cc
  All-get (x ∷ xs) zero a h e = ground arith
  All-get (x ∷ xs) (suc i) a h e = All-get xs i a h.1 e

pub All-mono {ℓ κ μ} :
    {A : Type ℓ} (P : A → Type κ) (Q : A → Type μ) (xs : List A)
    → ((a : A) → P a → Q a)
    → All P xs
    → All Q xs
All-mono P Q [] f h = tt
All-mono P Q (x ∷ xs) f h = (f x h.0, All-mono P Q xs f h.1)

module _ {ℓ} {A : Type ℓ} where
  pub get_elem?-lt : (xs : List A) (i : ℕ) → i < length xs → (a : A) × (get_elem? xs i ≡ some a)
  get_elem?-lt [] i h = absurd (omega arith)
  get_elem?-lt (x ∷ xs) zero h = (x, refl)
  get_elem?-lt (x ∷ xs) (suc i) h = get_elem?-lt xs i (omega arith)
