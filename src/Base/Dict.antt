-- ===== src/Base/Dict.antt =====
-- A JavaScript `Map` with text keys, as an association list in insertion order: `set` on a present
-- key writes in place and on a new key appends, as `Map.prototype.set` does.
use Prim.Native.String.{String}
use mathlib.Core.Path.{◌≡◌, refl}
use mathlib.Core.Bool.{Bool, true, false}
use mathlib.Core.Option.{Option, none, some}
use mathlib.Core.List.{List, [], ◌∷◌}
use text.Mathlib.Text.{◌==◌}
use text.Mathlib.TextEquality.{eq_iff}
use native.Mathlib.Omega.{arith}
use nexus_os_ai_workspace.Base.Tests.{if◌then◌else◌}

abbrev pub is_some {ℓ} : {A : Type ℓ} → Option A → Bool
is_some none = false
is_some (some a) = true

abbrev pub get_or {ℓ} : {A : Type ℓ} → Option A → A → A
get_or none d = d
get_or (some a) d = a

module _ {ℓ} {V : Type ℓ} where
  unfoldable pub get : String → List (String × V) → Option V
  get k [] = none
  get k ((j, v) ∷ m) = if j == k then some v else get k m

  unfoldable pub put : String → V → List (String × V) → List (String × V)
  put k v [] = (k, v) ∷ []
  put k v ((j, w) ∷ m) = if j == k then (j, v) ∷ m else (j, w) ∷ put k v m

  unfoldable pub delete : String → List (String × V) → List (String × V)
  delete k [] = []
  delete k ((j, w) ∷ m) = let rest = delete k m in if j == k then rest else (j, w) ∷ rest

  pub get-put :
      (k j : String) (v : V) (m : List (String × V))
      → get j (put k v m) ≡ (if k == j then some v else get j m)
  unfolding get put
  get-put k j v [] = refl
  get-put k j v ((i, w) ∷ m) = ground (arith, eq_iff k j, eq_iff i k, eq_iff i j, get-put k j v m)

  pub get-delete :
      (k j : String) (m : List (String × V))
      → get j (delete k m) ≡ (if k == j then none else get j m)
  unfolding get delete
  get-delete k j [] = ground arith
  get-delete k j ((i, w) ∷ m) = ground (arith, eq_iff k j, eq_iff i k, eq_iff i j, get-delete k j m)
