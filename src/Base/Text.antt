-- ===== src/Base/Text.antt =====
-- Texts as JavaScript's `trim`, `endsWith` and `join` read them. `String` has its own `[]` and `∷`.
use Prim.Native.Nat.{ℕ, zero, suc, ◌+◌, ◌/◌, ◌%◌}
use Prim.Native.Char.{code}
use Prim.Native.String
use Prim.Native.String.{String}
use mathlib.Core.Bool.{Bool, ◌&&◌, ◌||◌}
use mathlib.Core.List.{List, [], ◌∷◌}
use text.Mathlib.Text.{◌==◌}
use nexus_os_ai_workspace.Base.Tests.{leb, ltb, eqb, if◌then◌else◌}

-- The white space and line terminators of ECMAScript.
unfoldable pub is_space : ℕ → Bool
is_space c =
    (leb 9 c && leb c 13)
    || eqb c 32
    || eqb c 0xa0
    || eqb c 0x1680
    || (leb 0x2000 c && leb c 0x200a)
    || eqb c 0x2028
    || eqb c 0x2029
    || eqb c 0x202f
    || eqb c 0x205f
    || eqb c 0x3000
    || eqb c 0xfeff

unfoldable pub trim_start : String → String
unfolding is_space
trim_start String.[] = ""
trim_start (String.◌∷◌ c s) =
    let rest = trim_start s in if is_space (code c) then rest else String.◌∷◌ c s

unfoldable pub trim_end : String → String
unfolding is_space
trim_end String.[] = ""
trim_end (String.◌∷◌ c s) =
    let rest = trim_end s in if rest == "" && is_space (code c) then "" else String.◌∷◌ c rest

unfoldable pub trim : String → String
unfolding trim_start trim_end
trim s = trim_end (trim_start s)

unfoldable pub ends_with : String → String → Bool
ends_with String.[] t = t == ""
ends_with (String.◌∷◌ c s) t = String.◌∷◌ c s == t || ends_with s t

abbrev pub ◌⊕◌ : String → String → String
◌⊕◌ = String.◌++◌

-- `Array.prototype.join`.
unfoldable pub join : String → List String → String
join sep [] = ""
join sep (s ∷ []) = s
join sep (s ∷ t ∷ ss) = ◌⊕◌ s (◌⊕◌ sep (join sep (t ∷ ss)))

-- `s.length`: characters past the basic plane take two code units.
unfoldable pub utf16_length : String → ℕ
utf16_length String.[] = 0
utf16_length (String.◌∷◌ c s) = (if ltb (code c) 0x10000 then 1 else 2) + utf16_length s

abbrev digit : ℕ → String
digit n =
    if eqb n 0
    then "0"
    else if eqb n 1
    then "1"
    else if eqb n 2
    then "2"
    else if eqb n 3
    then "3"
    else if eqb n 4
    then "4"
    else if eqb n 5
    then "5"
    else if eqb n 6
    then "6"
    else if eqb n 7
    then "7"
    else if eqb n 8
    then "8"
    else "9"

decimal_fuel : ℕ → ℕ → String
decimal_fuel zero n = ""
decimal_fuel (suc f) n =
    let more = ◌⊕◌ (decimal_fuel f (n / 10)) (digit (n % 10)) in if ltb n 10 then digit n else more

-- `n.toString()`. A number has fewer digits than its successor is large, so the fuel suffices.
unfoldable pub decimal : ℕ → String
unfolding decimal_fuel
decimal n = decimal_fuel (suc n) n
