-- ===== src/Base/Results.antt =====
-- A call that returns or throws: `thrown e` is an error.
use mathlib.Core.Path.{◌≡◌, refl}
use mathlib.Core.Bool.{Bool, true, false}

pub data Result {ℓ κ} (E : Type κ) (A : Type ℓ) : Type (ℓ ⊔ κ) where
  returned : A → Result E A
  thrown : E → Result E A

infixl 5 ◌>>=◌ ◌>>◌
abbrev pub ◌>>=◌ {ℓ κ μ} :
    {E : Type κ} {A : Type ℓ} {B : Type μ} → Result E A → (A → Result E B) → Result E B
returned a >>= f = f a
thrown e >>= f = thrown e

-- `if (!test) throw e`.
abbrev pub require {κ} : {E : Type κ} → Bool → E → Result E (Unit {0})
require true e = returned tt
require false e = thrown e

-- One call after another, for its errors only.
abbrev pub ◌>>◌ {ℓ κ} : {E : Type κ} {B : Type ℓ} → Result E (Unit {0}) → Result E B → Result E B
m >> k = m >>= λ _. k

module _ {ℓ κ μ} {E : Type κ} {A : Type ℓ} {B : Type μ} where
  -- A sequence that returns, taken apart.
  pub >>=-eq-returned :
      (m : Result E A) (f : A → Result E B) {b : B}
      → (m >>= f) ≡ returned b
      → (a : A) × (m ≡ returned a) × (f a ≡ returned b)
  >>=-eq-returned (returned a) f h = (a, refl, h)
  >>=-eq-returned (thrown e) f h = cc

pub require-eq-returned {κ} :
    {E : Type κ} (b : Bool) (e : E) {u : Unit {0}} → require b e ≡ returned u → b ≡ true
require-eq-returned true e h = refl
require-eq-returned false e h = cc
