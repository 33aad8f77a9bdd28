-- ===== src/Events/Cursors.antt =====
-- Stream cursors, `<epoch>:<sequence number>`: STREAM_CURSOR_REGEX, isValidStreamCursor,
-- parseStreamCursor and formatStreamCursor of packages/contracts/src/events/stream.ts.
use Prim.Native.Char.{code}
use nexus_os_ai_workspace.Base.{
  ℕ, zero, suc, ◌+◌, ◌-◌, ◌*◌, String, Bool, true, false, ◌&&◌, ◌||◌, Option, none, some,
  if◌then◌else◌, leb, eqb, is_some, ◌==◌, ◌⊕◌, decimal,
}
use nexus_os_ai_workspace.Host.{Host}

-- `Number.MAX_SAFE_INTEGER`.
abbrev pub max_safe_integer : ℕ
max_safe_integer = 9007199254740991

unfoldable pub is_digit : ℕ → Bool
is_digit c = leb 48 c && leb c 57

-- `[0-9a-f]` in either case.
unfoldable pub is_hex : ℕ → Bool
unfolding is_digit
is_hex c = is_digit c || (leb 97 c && leb c 102) || (leb 65 c && leb c 70)

-- What follows `n` hexadecimal digits.
unfoldable pub after_hex : ℕ → String → Option String
unfolding is_hex
after_hex zero s = some s
after_hex (suc n) String.[] = none
after_hex (suc n) (String.◌∷◌ c s) =
    let rest = after_hex n s in if is_hex (code c) then rest else none

-- What follows a dash and `n` hexadecimal digits.
unfoldable pub after_group : ℕ → Option String → Option String
unfolding after_hex
after_group n none = none
after_group n (some String.[]) = none
after_group n (some (String.◌∷◌ c s)) = if eqb (code c) 45 then after_hex n s else none

-- `[0-9a-f]{8}-[0-9a-f]{4}-[0-9a-f]{4}-[0-9a-f]{4}-[0-9a-f]{12}`.
unfoldable pub is_epoch : String → Bool
unfolding after_hex after_group
is_epoch s = elim (after_group 12 (after_group 4 (after_group 4 (after_group 4 (after_hex 8 s))))) [
  | none ↦ false
  | some rest ↦ rest == ""
]

unfoldable pub all_digits : String → Bool
unfolding is_digit
all_digits String.[] = true
all_digits (String.◌∷◌ c s) = is_digit (code c) && all_digits s

-- `[1-9][0-9]*`.
unfoldable pub is_sequence : String → Bool
unfolding all_digits is_digit
is_sequence String.[] = false
is_sequence (String.◌∷◌ c s) = leb 49 (code c) && leb (code c) 57 && all_digits s

-- `cursor.split(':')` in two, at the first colon.
unfoldable pub before_colon : String → String
before_colon String.[] = ""
before_colon (String.◌∷◌ c s) =
    let rest = before_colon s in if eqb (code c) 58 then "" else String.◌∷◌ c rest

unfoldable pub after_colon : String → Option String
after_colon String.[] = none
after_colon (String.◌∷◌ c s) = let rest = after_colon s in if eqb (code c) 58 then some s else rest

-- `Number(digits)` after the digits read so far.
unfoldable pub number_from : ℕ → String → ℕ
number_from acc String.[] = acc
number_from acc (String.◌∷◌ c s) = number_from (acc * 10 + (code c - 48)) s

pub record ParsedStreamCursor : Type 0 where
  pub epoch_id : String
  pub sequence_number : ℕ

-- The regular expression, the split and the safe range in one; a number past the safe range stays
-- past it when it is rounded.
unfoldable pub parse_stream_cursor : String → Option ParsedStreamCursor
unfolding is_epoch is_sequence before_colon after_colon number_from
parse_stream_cursor cursor = elim (after_colon cursor) [
  | none ↦ none
  | some digits ↦
      if is_epoch (before_colon cursor)
        && is_sequence digits
        && leb (number_from 0 digits) max_safe_integer
      then some (record { epoch_id = before_colon cursor; sequence_number = number_from 0 digits })
      else none
]

unfoldable pub is_valid_stream_cursor : String → Bool
unfolding parse_stream_cursor
is_valid_stream_cursor cursor = is_some (parse_stream_cursor cursor)

-- `none` where the source throws.
unfoldable pub format_stream_cursor : Host → String → ℕ → Option String
unfolding decimal
format_stream_cursor host epoch n =
    if host.is_uuid epoch && leb 1 n && leb n max_safe_integer
    then some (◌⊕◌ epoch (◌⊕◌ ":" (decimal n)))
    else none
