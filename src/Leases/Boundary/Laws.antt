-- ===== src/Leases/Boundary/Laws.antt =====
-- What the lease check of apps/desktop-agent/src/permissions/lease-boundary.ts guarantees.
use nexus_os_ai_workspace.Base.{
  ℕ, ◌<◌, String, ◌≡◌, refl, subst, ◌⊎◌, Bool, true, false, Option, none, some, List, arith, eq_iff,
  find,
}
use nexus_os_ai_workspace.Host.{Host}
use nexus_os_ai_workspace.Policy.{AuthenticatedContext, PolicySnapshot, PolicyRule, rule_matches}
use nexus_os_ai_workspace.Policy.Permits.{Holds, Permits, evaluate-allowed}
use nexus_os_ai_workspace.Leases.Types.{ExecutionLeaseHeader}
use nexus_os_ai_workspace.Leases.Signature.{verify_lease_signature}
use nexus_os_ai_workspace.Leases.Boundary.{
  valid, Draw, effective_subject, policy_request, policy_decision, check_lease, validate_lease,
  is_over, lacks_scope, foreign_subject, bad_signature,
}

-- No secret is set, or the lease is signed with it.
abbrev pub SignedUnder : Host → Option String → ExecutionLeaseHeader → Type 0
SignedUnder host none l = Unit
SignedUnder host (some s) l = (s ≡ "") ⊎ (verify_lease_signature host l s ≡ true)

-- No subject is given, or one without a tenant, or one of the given tenant.
abbrev pub OwnTenant : Option AuthenticatedContext → String → Type 0
OwnTenant none tenant = Unit
OwnTenant (some c) tenant = (c.tenant_id ≡ "") ⊎ (tenant ≡ c.tenant_id)

-- What a lease that passed has been checked for.
pub record Sound (host : Host) (strict : Bool) (snapshot : PolicySnapshot) (secret : Option String)
    (subject : Option AuthenticatedContext) (required : Option String) (draw : Draw)
    (l : ExecutionLeaseHeader) (rule : PolicyRule) : Type 0 where
  pub authentic : SignedUnder host secret l
  pub own_tenant : OwnTenant subject l.tenant_id
  pub ends : ℕ
  pub date : host.date_ms l.expires_at ≡ some ends
  pub alive : draw.now < ends
  pub scope : Holds required l.scopes
  pub found :
      find
        (rule_matches
          (policy_request subject required draw l).action
          (policy_request subject required draw l).resource)
        snapshot.rules
      ≡ some rule
  pub permits :
      Permits host strict draw.now
        (policy_request subject required draw l)
        (effective_subject subject l)
        rule

good_signature :
    (host : Host) (secret : Option String) (l : ExecutionLeaseHeader)
    → bad_signature host secret l ≡ false
    → SignedUnder host secret l
good_signature host none l h = tt
good_signature host (some t) l h = ground (arith, eq_iff t "")

own_subject :
    (subject : Option AuthenticatedContext) (tenant : String)
    → foreign_subject subject tenant ≡ false
    → OwnTenant subject tenant
own_subject none tenant h = tt
own_subject (some d) tenant h = ground (arith, eq_iff d.tenant_id "", eq_iff tenant d.tenant_id)

has_scope :
    (required : Option String) (held : List String)
    → lacks_scope required held ≡ false
    → Holds required held
has_scope none held h = tt
has_scope (some t) held h = ground (arith, eq_iff t "")

not_over :
    (end : Option ℕ) (now : ℕ) → is_over end now ≡ false → (t : ℕ) × (end ≡ some t) × (now < t)
not_over none now h = cc
not_over (some t) now h = (t, refl, ground arith)

request_subject :
    (subject : Option AuthenticatedContext) (required : Option String) (draw : Draw)
    (l : ExecutionLeaseHeader) (c : AuthenticatedContext)
    → (policy_request subject required draw l).subject ≡ some c
    → c ≡ effective_subject subject l
unfolding policy_request
request_subject subject required draw l c e = cc

module _ (host : Host) (strict : Bool) (snapshot : PolicySnapshot) (secret : Option String)
    (subject : Option AuthenticatedContext) (required : Option String) (draw : Draw) where
  check_lease-valid :
      (l m : ExecutionLeaseHeader)
      → check_lease host strict snapshot secret subject required draw l ≡ valid m
      → (m ≡ l)
        × (bad_signature host secret l ≡ false)
        × (foreign_subject subject l.tenant_id ≡ false)
        × (is_over (host.date_ms l.expires_at) draw.now ≡ false)
        × (lacks_scope required l.scopes ≡ false)
        × ((policy_decision host strict snapshot secret subject required draw l).allowed ≡ true)
  unfolding check_lease
  check_lease-valid l m h = ground arith

  policy_decision-Permits :
      (l : ExecutionLeaseHeader)
      → (policy_decision host strict snapshot secret subject required draw l).allowed ≡ true
      → (rule : PolicyRule) × (find
            (rule_matches
              (policy_request subject required draw l).action
              (policy_request subject required draw l).resource)
            snapshot.rules
          ≡ some rule)
        × Permits host strict draw.now
            (policy_request subject required draw l)
            (effective_subject subject l)
            rule
  unfolding policy_decision
  policy_decision-Permits l h =
      let q = policy_request subject required draw l in
      let (c, rule, found, p) =
        evaluate-allowed host strict snapshot draw.decision_uuid draw.now q h in
      (
        rule,
        found,
        subst (λ x. Permits host strict draw.now q x rule)
            (request_subject subject required draw l c p.subject) p,
      )

  -- A lease passes only if it parsed, is authentic under the secret (where one is set), belongs to
  -- the subject's tenant (where a subject with a tenant is given), has a readable expiry that lies
  -- ahead, has the scope that is required (where one is), and the first rule of the policy's
  -- snapshot that matches the request to execute it permits that request; and it is returned as is. An empty text counts as none.
  pub validate_lease-Sound :
      (parsed : Option ExecutionLeaseHeader) (m : ExecutionLeaseHeader)
      → validate_lease host strict snapshot secret parsed subject required draw ≡ valid m
      → (parsed ≡ some m)
        × ((rule : PolicyRule) × Sound host strict snapshot secret subject required draw m rule)
  unfolding validate_lease
  validate_lease-Sound none m h = cc
  validate_lease-Sound (some l) m h =
      let (same, sig, tenant, over, scope, allowed) = check_lease-valid l m h in
      let (t, date, alive) = not_over (host.date_ms l.expires_at) draw.now over in
      let (rule, found, p) = policy_decision-Permits l allowed in
      rw same (
        refl,
        (
          rule,
          record {
            authentic = good_signature host secret l sig;
            own_tenant = own_subject subject l.tenant_id tenant;
            ends = t;
            date = date;
            alive = alive;
            scope = has_scope required l.scopes scope;
            found = found;
            permits = p;
          },
        ),
      )
