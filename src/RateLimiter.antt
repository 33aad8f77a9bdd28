-- ===== src/RateLimiter.antt =====
-- The rate limiter of the agent's local IPC: apps/desktop-agent/src/ipc/rate-limiter.ts. Its three
-- constructor arguments are a `Limits`; `now` is the clock that `Date.now()` reads.
pub mod Windows
use nexus_os_ai_workspace.Base.{
  ℕ, ◌+◌, String, Bool, true, false, Option, none, List, [], ◌∷◌, ◌++◌, if◌then◌else◌, ltb, leb,
  filter, length, get, put, delete, get_or, nonempty,
}

pub record Limits : Type 0 where
  pub max_requests : ℕ
  pub window_ms : ℕ
  pub global_max_requests : ℕ

pub record Limiter : Type 0 where
  pub client_requests : List (String × List ℕ)
  pub global_requests : List ℕ

abbrev pub new_limiter : Limiter
new_limiter = record { client_requests = []; global_requests = [] }

-- `now - t < windowMs`.
abbrev pub is_recent : Limits → (now t : ℕ) → Bool
is_recent limits now t = ltb now (t + limits.window_ms)

abbrev pub stamps_of : String → Limiter → List ℕ
stamps_of client l = get_or (get client l.client_requests) []

-- The check of the client, once the window of all clients has room.
unfoldable pub limit_client : Limits → Limiter → String → (now : ℕ) → Limiter × Bool
limit_client limits l client now =
    let valid = filter (is_recent limits now) (stamps_of client l) in
    if leb limits.max_requests (length valid)
    then (record l { client_requests = put client valid l.client_requests }, true)
    else (
      record {
        client_requests = put client (valid ++ now ∷ []) l.client_requests;
        global_requests = l.global_requests ++ now ∷ [];
      },
      false,
    )

unfoldable pub is_rate_limited : Limits → Limiter → String → (now : ℕ) → Limiter × Bool
unfolding limit_client
is_rate_limited limits l client now =
    let pruned = record l { global_requests = filter (is_recent limits now) l.global_requests } in
    if nonempty client
    then if leb limits.global_max_requests (length pruned.global_requests)
      then (pruned, true)
      else limit_client limits pruned client now
    else (l, true)

unfoldable pub reset : Limiter → Option String → Limiter
reset l none = new_limiter
reset l (Option.some client) =
    if nonempty client
    then record l { client_requests = delete client l.client_requests }
    else new_limiter
