-- ===== src/Host.antt =====
-- What the services take from the Node.js runtime and from zod, none of it code of the repository:
-- `Date`, HMAC-SHA256 and the format checks of the schemas. Random identifiers and the clock are
-- arguments of the operations that use them.
use nexus_os_ai_workspace.Base.{ℕ, String, ◌≡◌, ◌≤◌, Bool, Option, none, some, if◌then◌else◌, leb}

-- The largest time value of ECMAScript, in milliseconds.
abbrev pub max_date : ℕ
max_date = 8640000000000000

pub record Host : Type 0 where
  -- `new Date(text).getTime()`, where `none` is NaN.
  pub date_ms : String → Option ℕ
  -- `new Date(ms).toISOString()` of a time in range.
  pub to_iso : ℕ → String
  -- `crypto.createHmac('sha256', secret).update(payload).digest('hex')`.
  pub hmac_hex : String → String → String
  -- `z.string().uuid()` and `z.string().datetime()`.
  pub is_uuid : String → Bool
  pub is_datetime : String → Bool

-- The documented round trip of `Date`: the text of a time in range reads back as that time.
abbrev pub ReadsBack : Host → Type 0
ReadsBack h = (t : ℕ) → t ≤ max_date → h.date_ms (h.to_iso t) ≡ some t

-- `toISOString` throws a RangeError on a time out of range: `none`.
abbrev pub iso_of : Host → ℕ → Option String
iso_of h t = if leb t max_date then some (h.to_iso t) else none
