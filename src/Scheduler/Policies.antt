-- ===== src/Scheduler/Policies.antt =====
-- The scheduler's priority and retry policies: apps/desktop-agent/src/scheduler/priority-policy.ts and
-- retry-policy.ts. The delay before a retry, a product of floating-point numbers, is left out with the
-- fields that only it reads.
use nexus_os_ai_workspace.Base.{
  ℕ, ◌+◌, String, ◌≡◌, ◌↔◌, Bool, true, false, ◌&&◌, ◌||◌, Option, none, some, ◌==◌, if◌then◌else◌,
  leb, ltb, includes, arith,
}
use nexus_os_ai_workspace.Scheduler.Items.{
  Lane, critical, interactive, normal, background, Request, Item, same_lane,
}

unfoldable pub derive_priority_lane : Request → Lane
derive_priority_lane r =
    if r.is_critical && includes "agent:foundation" r.lease_header.scopes
    then critical
    else if r.is_interactive
    then interactive
    else if r.is_background
    then background
    else normal

-- `now - queuedAt >= threshold`, over the integers.
unfoldable pub should_promote_for_aging : ℕ → Item → ℕ → Bool
unfolding same_lane
should_promote_for_aging threshold item now =
    same_lane item.priority_lane normal && leb (item.queued_at + threshold) now

unfoldable pub is_retryable_error : Option String → Bool
is_retryable_error none = false
is_retryable_error (some code) =
    code == "NETWORK_TIMEOUT"
    || code == "RATE_LIMITED"
    || code == "PROVIDER_CAPACITY"
    || code == "TRANSIENT_ERROR"

pub record RetryPolicy : Type 0 where
  pub max_retries : ℕ

unfoldable pub should_retry : RetryPolicy → ℕ → Option String → Bool
unfolding is_retryable_error
should_retry policy attempts code = ltb attempts policy.max_retries && is_retryable_error code

-- The critical lane is reached exactly by a request that asks for it and whose lease holds the
-- foundation scope.
pub derive_critical_iff :
    (r : Request)
    → (derive_priority_lane r ≡ critical)
      ↔ ((r.is_critical ≡ true) × (includes "agent:foundation" r.lease_header.scopes ≡ true))
unfolding derive_priority_lane
derive_critical_iff r = (λ h. ground arith, λ h. ground arith)
