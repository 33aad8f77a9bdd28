-- ===== src/Policy.antt =====
-- The policy service: services/policy/src/evaluator/reference-evaluator.ts with the types of
-- services/policy/src/domain, and the identity types of services/identity/src/domain/types.ts.
-- A date is the text that the source keeps, read by the host's `Date`. The texts of the reasons are
-- the constructors of `Reason`, with the values that the message quotes.
pub mod Permits
pub mod Dates
use nexus_os_ai_workspace.Base.{
  ℕ, String, Bool, true, false, not, ◌&&◌, ◌||◌, Option, none, some, List, [], ◌∷◌, ◌==◌,
  if◌then◌else◌, leb, truthy, includes, find, get_or,
}
use nexus_os_ai_workspace.Host.{Host}

pub data PolicyEffect : Type 0 where
  allow deny : PolicyEffect

pub data IdentityPrincipal : Type 0 where
  user :
      (user_id tenant_id : String) (email : Option String) (roles : List String) → IdentityPrincipal
  service : (service_id tenant_id service_name : String) (scopes : List String) → IdentityPrincipal
  device :
      (device_id tenant_id : String) (fingerprint : Option String) (scopes : List String)
      → IdentityPrincipal

pub record AuthenticatedContext : Type 0 where
  pub principal : IdentityPrincipal
  pub tenant_id : String
  pub issued_at : String
  pub expires_at : String
  pub raw_token_hash : String

pub record PolicyAction : Type 0 where
  pub action_name : String
  pub required_scope : Option String
  pub required_role : Option String

pub record PolicyResource : Type 0 where
  pub resource_type : String
  pub resource_id : String
  pub tenant_id : Option String

pub record PolicyDecisionRequest : Type 0 where
  pub subject : Option AuthenticatedContext
  pub action : PolicyAction
  pub resource : PolicyResource
  pub request_id : String
  pub correlation_id : String

pub record PolicyRule : Type 0 where
  pub rule_id : String
  pub action_name : String
  pub resource_type : String
  pub required_role : Option String
  pub required_scope : Option String
  pub effect : PolicyEffect

pub record PolicySnapshot : Type 0 where
  pub policy_version : String
  pub policy_hash : String
  pub rules : List PolicyRule

pub data Reason : Type 0 where
  missing_context expired_context : Reason
  cross_tenant : (subject resource : String) → Reason
  no_matching_rule : (action resource : String) → Reason
  lacks_role : String → Reason
  lacks_scope : String → Reason
  permitted_by : (action rule_id : String) → Reason
  denied_by : (action rule_id : String) → Reason

pub record PolicyDecisionResult : Type 0 where
  pub decision_id : String
  pub effect : PolicyEffect
  pub allowed : Bool
  pub policy_version : String
  pub policy_hash : String
  pub reason : Reason
  pub evaluated_at : ℕ
  pub request_id : String
  pub correlation_id : String

-- `a || b` on optional texts.
abbrev pub or_else : Option String → Option String → Option String
or_else a b = if truthy a then a else b

-- `principal.type === 'USER' ? principal.roles : []`, and the other way round for scopes.
abbrev pub roles_of : IdentityPrincipal → List String
roles_of (user _ _ _ roles) = roles
roles_of (service _ _ _ _) = []
roles_of (device _ _ _ _) = []

abbrev pub scopes_of : IdentityPrincipal → List String
scopes_of (user _ _ _ _) = []
scopes_of (service _ _ _ scopes) = scopes
scopes_of (device _ _ _ scopes) = scopes

-- `date.getTime() <= now`, which is false of NaN.
abbrev pub has_passed : Option ℕ → ℕ → Bool
has_passed none now = false
has_passed (some t) now = leb t now

-- `required && !held.includes(required)`.
abbrev pub is_missing : Option String → List String → Bool
is_missing none held = false
is_missing (some r) held = truthy (some r) && not (includes r held)

-- `resource.tenantId && resource.tenantId !== subject.tenantId`.
abbrev pub other_tenant : Option String → String → Bool
other_tenant none t = false
other_tenant (some r) t = truthy (some r) && not (r == t)

abbrev pub rule_matches : PolicyAction → PolicyResource → PolicyRule → Bool
rule_matches action resource r =
    (r.action_name == "*" || r.action_name == action.action_name)
    && (r.resource_type == "*" || r.resource_type == resource.resource_type)

unfoldable pub is_allow : PolicyEffect → Bool
is_allow allow = true
is_allow deny = false

module _ (host : Host) (strict_scopes : Bool) (snapshot : PolicySnapshot) where
  module _ (decision_id : String) (now : ℕ) (request : PolicyDecisionRequest) where
    decide : PolicyEffect → Bool → Reason → PolicyDecisionResult
    decide effect allowed reason = record {
      decision_id = decision_id;
      effect = effect;
      allowed = allowed;
      policy_version = snapshot.policy_version;
      policy_hash = snapshot.policy_hash;
      reason = reason;
      evaluated_at = now;
      request_id = request.request_id;
      correlation_id = request.correlation_id;
    }

    -- From the role and scope requirements on.
    apply_rule : IdentityPrincipal → PolicyRule → PolicyDecisionResult
    unfolding decide is_allow
    apply_rule principal rule =
        let role = or_else request.action.required_role rule.required_role in
        let scope = or_else request.action.required_scope rule.required_scope in
        if is_missing role (roles_of principal)
        then decide deny false (lacks_role (get_or role ""))
        else if strict_scopes && is_missing scope (scopes_of principal)
        then decide deny false (lacks_scope (get_or scope ""))
        else if is_allow rule.effect
        then decide rule.effect true (permitted_by request.action.action_name rule.rule_id)
        else decide rule.effect false (denied_by request.action.action_name rule.rule_id)

    -- From the expiry of the context on.
    evaluate_subject : AuthenticatedContext → PolicyDecisionResult
    unfolding decide apply_rule
    evaluate_subject subject =
        if has_passed (host.date_ms subject.expires_at) now
        then decide deny false expired_context
        else if other_tenant request.resource.tenant_id subject.tenant_id
        then decide deny false
            (cross_tenant subject.tenant_id (get_or request.resource.tenant_id ""))
        else elim (find (rule_matches request.action request.resource) snapshot.rules) [
          | none ↦
              decide deny false
                (no_matching_rule request.action.action_name request.resource.resource_type)
          | some rule ↦ apply_rule subject.principal rule
        ]

    unfoldable pub evaluate : PolicyDecisionResult
    unfolding decide evaluate_subject
    evaluate = elim request.subject [
      | none ↦ decide deny false missing_context
      | some subject ↦ evaluate_subject subject
    ]
