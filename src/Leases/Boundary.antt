-- ===== src/Leases/Boundary.antt =====
-- The desktop agent's lease check: apps/desktop-agent/src/permissions/lease-boundary.ts. The value to
-- be checked is what zod's `parse` makes of the raw lease, `none` where it throws; the evaluator is
-- the reference evaluator, which the constructor takes by default.
pub mod Laws
use nexus_os_ai_workspace.Base.{
  ℕ, ◌<◌, String, ◌≡◌, refl, ◌⊎◌, inl, inr, Bool, true, false, not, ◌&&◌, ◌||◌, Option, none, some,
  List, [], ◌∷◌, ◌==◌, if◌then◌else◌, leb, truthy, nonempty, includes, get_or, arith, eq_iff, find,
  Option-cases, Bool-cases,
}
use nexus_os_ai_workspace.Host.{Host}
use nexus_os_ai_workspace.Policy.{
  AuthenticatedContext, PolicyDecisionRequest, PolicyDecisionResult, PolicySnapshot, PolicyRule,
  Reason, device, evaluate, or_else, rule_matches,
}
use nexus_os_ai_workspace.Policy.Permits.{Permits, evaluate-allowed, StillOpen}
use nexus_os_ai_workspace.Leases.Types.{ExecutionLeaseHeader}
use nexus_os_ai_workspace.Leases.Signature.{verify_lease_signature}

pub data Refusal : Type 0 where
  malformed_lease invalid_lease_signature tenant_mismatch lease_expired : Refusal
  scope_not_granted : String → Refusal
  policy_denied : Reason → Refusal

pub data LeaseValidation : Type 0 where
  valid : ExecutionLeaseHeader → LeaseValidation
  invalid : Refusal → LeaseValidation

abbrev head_scope : List String → Option String
head_scope [] = none
head_scope (s ∷ ss) = some s

-- `Number.isNaN(expiresAtMs) || expiresAtMs <= Date.now()`.
abbrev is_over : Option ℕ → ℕ → Bool
is_over none now = true
is_over (some t) now = leb t now

abbrev lacks_scope : Option String → List String → Bool
lacks_scope none held = false
lacks_scope (some s) held = nonempty s && not (includes s held)

abbrev foreign_subject : Option AuthenticatedContext → String → Bool
foreign_subject none tenant = false
foreign_subject (some c) tenant = nonempty c.tenant_id && not (tenant == c.tenant_id)

-- `if (this.leaseSecret) …`.
abbrev bad_signature : Host → Option String → ExecutionLeaseHeader → Bool
bad_signature host none l = false
bad_signature host (some secret) l = nonempty secret && not (verify_lease_signature host l secret)

-- The random identifiers of a call, and the clock.
pub record Draw : Type 0 where
  pub request_uuid : String
  pub correlation_uuid : String
  pub decision_uuid : String
  pub now : ℕ

-- Without a subject the lease speaks for its device.
unfoldable pub effective_subject :
    Option AuthenticatedContext → ExecutionLeaseHeader → AuthenticatedContext
effective_subject (some c) l = c
effective_subject none l = record {
  principal = device l.agent_id l.tenant_id none l.scopes;
  tenant_id = l.tenant_id;
  issued_at = l.issued_at;
  expires_at = l.expires_at;
  raw_token_hash = l.signature;
}

unfoldable pub policy_request :
    Option AuthenticatedContext
    → Option String
    → Draw
    → ExecutionLeaseHeader
    → PolicyDecisionRequest
unfolding effective_subject
policy_request subject required draw l = record {
  subject = some (effective_subject subject l);
  action = record {
    action_name = "lease:execute";
    required_scope = or_else required (head_scope l.scopes);
    required_role = none;
  };
  resource = record {
    resource_type = "agent-execution-plane";
    resource_id = l.lease_id;
    tenant_id = some l.tenant_id;
  };
  request_id = get_or l.nonce draw.request_uuid;
  correlation_id = get_or l.nonce draw.correlation_uuid;
}

module _ (host : Host) (strict : Bool) (snapshot : PolicySnapshot) (secret : Option String) where
  unfoldable pub policy_decision :
      Option AuthenticatedContext
      → Option String
      → Draw
      → ExecutionLeaseHeader
      → PolicyDecisionResult
  policy_decision subject required draw l =
      evaluate host strict snapshot draw.decision_uuid draw.now
        (policy_request subject required draw l)

  check_lease :
      Option AuthenticatedContext → Option String → Draw → ExecutionLeaseHeader → LeaseValidation
  check_lease subject required draw l =
      if bad_signature host secret l
      then invalid invalid_lease_signature
      else if foreign_subject subject l.tenant_id
      then invalid tenant_mismatch
      else if is_over (host.date_ms l.expires_at) draw.now
      then invalid lease_expired
      else if lacks_scope required l.scopes
      then invalid (scope_not_granted (get_or required ""))
      else if not (policy_decision subject required draw l).allowed
      then invalid (policy_denied (policy_decision subject required draw l).reason)
      else valid l

  unfoldable pub validate_lease :
      Option ExecutionLeaseHeader
      → Option AuthenticatedContext
      → Option String
      → Draw
      → LeaseValidation
  unfolding check_lease
  validate_lease none subject required draw = invalid malformed_lease
  validate_lease (some l) subject required draw = check_lease subject required draw l
