-- ===== src/Policy/Dates.antt =====
-- The expiry check of services/policy/src/evaluator/reference-evaluator.ts on texts that are no date.
use nexus_os_ai_workspace.Base.{ℕ, String, ◌≡◌, ◌<◌, Bool, none, some, arith}
use nexus_os_ai_workspace.Host.{Host}
use nexus_os_ai_workspace.Policy.{
  AuthenticatedContext, PolicyDecisionRequest, PolicySnapshot, evaluate, evaluate_subject,
}

-- A context whose expiry text is no date is decided like the same context with an expiry ahead:
-- NaN is not `<=` the clock, so the check that should fail closed lets it pass.
pub evaluate_unreadable_expiry :
    (host : Host) (strict : Bool) (snapshot : PolicySnapshot) (id : String) (now : ℕ)
    (q : PolicyDecisionRequest) (c : AuthenticatedContext) (later : String) (t : ℕ)
    → q.subject ≡ some c
    → host.date_ms c.expires_at ≡ none
    → host.date_ms later ≡ some t
    → now < t
    → evaluate host strict snapshot id now q
      ≡ evaluate host strict snapshot id now
          (record q { subject = some (record c { expires_at = later }) })
unfolding evaluate evaluate_subject
evaluate_unreadable_expiry host strict snapshot id now q c later t s bad good h = ground arith
