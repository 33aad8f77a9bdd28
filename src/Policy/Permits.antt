-- ===== src/Policy/Permits.antt =====
-- When the evaluator of services/policy/src/evaluator/reference-evaluator.ts allows a request.
use nexus_os_ai_workspace.Base.{
  Option-cases, inl, inr, ℕ, String, ◌≡◌, refl, ◌↔◌, ◌⊎◌, ◌<◌, Bool, true, false, Option, none,
  some, List, arith, eq_iff, includes, find,
}
use nexus_os_ai_workspace.Host.{Host}
use nexus_os_ai_workspace.Policy.{
  AuthenticatedContext, PolicyDecisionRequest, PolicyRule, PolicySnapshot, allow, or_else,
  is_missing, has_passed, other_tenant, roles_of, scopes_of, rule_matches, evaluate,
  evaluate_subject, apply_rule,
}

-- A requirement that is not given or empty asks for nothing; any other must be held.
abbrev pub Holds : Option String → List String → Type 0
Holds none held = Unit
Holds (some r) held = (r ≡ "") ⊎ (includes r held ≡ true)

-- The date is not known to be in the past: it lies ahead, or the text is no date.
abbrev pub StillOpen : Option ℕ → ℕ → Type 0
StillOpen none now = Unit
StillOpen (some t) now = now < t

-- The resource names no tenant, or the subject's.
abbrev pub SameTenant : Option String → String → Type 0
SameTenant none t = Unit
SameTenant (some r) t = (r ≡ "") ⊎ (r ≡ t)

-- What a request needs to be allowed, by its subject and the rule that decides.
pub record Permits (host : Host) (strict : Bool) (now : ℕ) (q : PolicyDecisionRequest)
    (c : AuthenticatedContext) (rule : PolicyRule) : Type 0 where
  pub subject : q.subject ≡ some c
  pub unexpired : StillOpen (host.date_ms c.expires_at) now
  pub tenant : SameTenant q.resource.tenant_id c.tenant_id
  pub role : Holds (or_else q.action.required_role rule.required_role) (roles_of c.principal)
  pub scope :
      (strict ≡ false)
      ⊎ Holds (or_else q.action.required_scope rule.required_scope) (scopes_of c.principal)
  pub effect : rule.effect ≡ allow

Holds-iff : (o : Option String) (held : List String) → (is_missing o held ≡ false) ↔ Holds o held
Holds-iff none held = (λ h. tt, λ h. refl)
Holds-iff (some r) held = (λ h. ground (arith, eq_iff r ""), λ h. ground (arith, eq_iff r ""))

StillOpen-iff : (o : Option ℕ) (now : ℕ) → (has_passed o now ≡ false) ↔ StillOpen o now
StillOpen-iff none now = (λ h. tt, λ h. refl)
StillOpen-iff (some t) now = (λ h. ground arith, λ h. ground arith)

SameTenant-iff : (o : Option String) (t : String) → (other_tenant o t ≡ false) ↔ SameTenant o t
SameTenant-iff none t = (λ h. tt, λ h. refl)
SameTenant-iff (some r) t =
    (λ h. ground (arith, eq_iff r "", eq_iff r t), λ h. ground (arith, eq_iff r "", eq_iff r t))

module _ (host : Host) (strict : Bool) (snapshot : PolicySnapshot) (id : String) (now : ℕ)
    (q : PolicyDecisionRequest) where
  apply_rule-allowed :
      (c : AuthenticatedContext) (rule : PolicyRule)
      → (apply_rule host strict snapshot id now q c.principal rule).allowed ≡ true
      → Holds (or_else q.action.required_role rule.required_role) (roles_of c.principal)
        × ((strict ≡ false)
            ⊎ Holds (or_else q.action.required_scope rule.required_scope) (scopes_of c.principal))
        × (rule.effect ≡ allow)
  unfolding apply_rule
  apply_rule-allowed c rule h = ground (
    arith,
    Holds-iff (or_else q.action.required_role rule.required_role) (roles_of c.principal),
    Holds-iff (or_else q.action.required_scope rule.required_scope) (scopes_of c.principal),
  )

  evaluate_subject-allowed :
      (c : AuthenticatedContext)
      → (evaluate_subject host strict snapshot id now q c).allowed ≡ true
      → StillOpen (host.date_ms c.expires_at) now
        × SameTenant q.resource.tenant_id c.tenant_id
        × ((rule : PolicyRule) × (find (rule_matches q.action q.resource) snapshot.rules
              ≡ some rule)
            × ((apply_rule host strict snapshot id now q c.principal rule).allowed ≡ true))
  unfolding evaluate_subject
  evaluate_subject-allowed c h = ground (
    arith,
    StillOpen-iff (host.date_ms c.expires_at) now,
    SameTenant-iff q.resource.tenant_id c.tenant_id,
  )

  -- An allowed request has a subject whose expiry lies ahead or is no date, asks for a resource of
  -- the subject's tenant or of none, and the first rule that matches allows it, with the role and
  -- (under strict matching) the scope that the action or else the rule asks for held by the
  -- principal.
  pub evaluate-allowed :
      (evaluate host strict snapshot id now q).allowed ≡ true
      → (c : AuthenticatedContext) × (rule : PolicyRule) × (find
            (rule_matches q.action q.resource)
            snapshot.rules
          ≡ some rule)
        × Permits host strict now q c rule
  unfolding evaluate
  evaluate-allowed h = elim (Option-cases q.subject) [
    | inl none_given ↦ cc (rw (none_given, evaluate) at h)
    | inr (c, given) ↦
        let (open_still, tenant, (rule, found, applied)) =
          evaluate_subject-allowed c (rw (given, evaluate) at h) in
        let (role, scope, effect) = apply_rule-allowed c rule applied in
        (
          c,
          rule,
          found,
          record {
            subject = given;
            unexpired = open_still;
            tenant = tenant;
            role = role;
            scope = scope;
            effect = effect;
          },
        )
  ]

  -- A request is allowed if its subject's expiry lies ahead or is no date, its resource is of the
  -- subject's tenant or of none, and the first rule that matches allows it, with the role and
  -- (under strict matching) the scope that is asked for held by the principal.
  pub evaluate_of_Permits :
      (c : AuthenticatedContext) (rule : PolicyRule)
      → find (rule_matches q.action q.resource) snapshot.rules ≡ some rule
      → Permits host strict now q c rule
      → (evaluate host strict snapshot id now q).allowed ≡ true
  unfolding evaluate evaluate_subject apply_rule
  evaluate_of_Permits c rule f p = ground (
    arith,
    StillOpen-iff (host.date_ms c.expires_at) now,
    SameTenant-iff q.resource.tenant_id c.tenant_id,
    Holds-iff (or_else q.action.required_role rule.required_role) (roles_of c.principal),
    Holds-iff (or_else q.action.required_scope rule.required_scope) (scopes_of c.principal),
  )
