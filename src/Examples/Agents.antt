-- ===== src/Examples/Agents.antt =====
-- The agent's rate limiter, notifications, telemetry, lifecycle, connection and registries.
use nexus_os_ai_workspace.Base.{
  ℕ, ◌≤◌, String, ◌≡◌, refl, true, false, none, List, [], ◌∷◌, All, count, arith,
}
use nexus_os_ai_workspace.RateLimiter.{Limits, Limiter, new_limiter}
use nexus_os_ai_workspace.RateLimiter.Windows.{
  windows_bounded, made_since, made_by_since, serve_all,
}
use nexus_os_ai_workspace.Lifecycle.{
  stopping, stopped, ready, starting, is_unsafe, attempt_all, unsafe_until_started, includes_state,
}
use nexus_os_ai_workspace.Connection.{
  Machine, BackoffConfig, asks_for, unpaired, revoked, connected_active, connecting,
  revoked_until_unpaired, move_all, same_connection,
}
use nexus_os_ai_workspace.Registry.{
  AgentCapability, ToolRuntimeDescriptor, device, foundation_policy, register_all, Authorised,
  register_all-Authorised,
}

abbrev limits : Limits
limits = record { max_requests = 1; window_ms = 10; global_max_requests = 2 }

abbrev calls : List (String × ℕ)
calls = ("ui", 1) ∷ ("ui", 2) ∷ ("cli", 3) ∷ ("x", 4) ∷ []

windows_bounded_example :
    (count (made_since limits 5) (serve_all limits (new_limiter, []) calls).1 ≤ 2)
    × (count (made_by_since limits "ui" 5) (serve_all limits (new_limiter, []) calls).1 ≤ 1)
windows_bounded_example =
    windows_bounded limits calls "ui" 5
      (omega arith, (omega arith, (omega arith, (omega arith, tt)))) (omega arith)

abbrev busy : Limiter
busy = record { client_requests = ("ui", 1 ∷ []) ∷ []; global_requests = 1 ∷ [] }

abbrev ui : String
ui = "ui"

is_stopping : is_unsafe stopping ≡ true
unfolding is_unsafe
is_stopping = refl

asked_for : includes_state (ready ∷ stopped ∷ ready ∷ []) starting ≡ false
unfolding includes_state
asked_for = refl

unsafe_until_started_example :
    is_unsafe (attempt_all stopping (ready ∷ stopped ∷ ready ∷ [])) ≡ true
unsafe_until_started_example =
    unsafe_until_started stopping (ready ∷ stopped ∷ ready ∷ []) is_stopping asked_for

abbrev cut_off : Machine
cut_off = record { current_state = revoked; attempt_count = 3 }

is_revoked : same_connection revoked revoked ≡ true
unfolding same_connection
is_revoked = refl

not_asked : asks_for unpaired (connecting ∷ connected_active ∷ []) ≡ false
unfolding same_connection
not_asked = refl

revoked_until_unpaired_example : move_all cut_off (connecting ∷ connected_active ∷ []) ≡ cut_off
revoked_until_unpaired_example =
    revoked_until_unpaired cut_off (connecting ∷ connected_active ∷ []) is_revoked not_asked

abbrev backoff : BackoffConfig
backoff = record { initial_delay_ms = 1000; max_delay_ms = 60000; multiplier = 2 }

abbrev shell : ToolRuntimeDescriptor
shell = record {
  runtime_id = "shell";
  runtime_category = "TERMINAL";
  version = "1";
  is_executable = true;
  supported_actions = [];
}

register_all-Authorised_example :
    All
      (Authorised foundation_policy)
      (register_all foundation_policy [] (shell ∷ record shell { is_executable = false } ∷ []))
register_all-Authorised_example =
    register_all-Authorised foundation_policy (shell ∷ record shell { is_executable = false } ∷ [])

abbrev camera : AgentCapability
camera = record {
  capability_id = "camera";
  category = device;
  description = "";
  is_dangerous = true;
  required_scope = none;
}

abbrev known : List (String × AgentCapability)
known = ("camera", camera) ∷ []
