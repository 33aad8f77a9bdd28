-- ===== src/Leases/Chains.antt =====
-- What a lease issued by services/backend/src/leases/lease-issuer.ts promises, and what a chain of
-- delegations keeps.
use nexus_os_ai_workspace.Base.{
  ℕ, suc, ◌≤◌, ◌<◌, min, String, ◌≡◌, refl, true, false, Option, none, some, arith, eq_iff, All,
  Result, returned, ◌>>=◌, >>=-eq-returned,
}
use nexus_os_ai_workspace.Host.{Host, iso_of, ReadsBack}
use nexus_os_ai_workspace.Leases.Types.{
  ExecutionLeaseHeader, DelegatedLeaseHeader, delegated_ok, header_ok,
}
use nexus_os_ai_workspace.Leases.Scopes.{
  Granted, attenuation_iff, verify_scope_attenuation, valid, invalid, is_valid, AttenuationResult,
}
use nexus_os_ai_workspace.Leases.Signature.{verify-signed, verify_delegated-signed}
use nexus_os_ai_workspace.Leases.Issuer.{
  LeaseIssuer, LeaseIssueParams, DelegatedLeaseIssueParams, ParentLease, delegated, header, Draw,
  IssueError, invalid_date, issue_lease, issue_delegated_lease, verify_lease,
  verify_delegated_lease, check_delegation, child_lease, parent_signed, in_sequence, bounded_iso,
  not_before, sign_lease, sign_delegated, guard_scopes, or_throw, parse_header, parse_delegated,
  unsigned_lease, requested_expiry,
}

-- A call that returns has drawn both its dates.
from_dates {ℓ} :
    {A : Type ℓ} (o₁ o₂ : Option String) (f : String → String → Result IssueError A) {r : A}
    → (or_throw o₁ invalid_date >>= λ a. or_throw o₂ invalid_date >>= λ b. f a b) ≡ returned r
    → (a b : String) × (o₁ ≡ some a) × (o₂ ≡ some b) × (f a b ≡ returned r)
from_dates none o₂ f h = cc
from_dates (some a) none f h = cc
from_dates (some a) (some b) f h = (a, b, refl, refl, h)

module _ (host : Host) (issuer : LeaseIssuer) where
  parse_header-signed :
      (l l₀ : ExecutionLeaseHeader)
      → parse_header host issuer (sign_lease host issuer l₀) ≡ returned l
      → (l ≡ sign_lease host issuer l₀) × (header_ok host l ≡ true)
  unfolding parse_header
  parse_header-signed l l₀ h = ground arith

  verify-sign_lease :
      (l : ExecutionLeaseHeader) → verify_lease host issuer (sign_lease host issuer l) ≡ true
  unfolding verify_lease sign_lease
  verify-sign_lease l = verify-signed host l issuer.secret_key

  -- A lease that was issued verifies under the issuer's key and passes the schema.
  pub verify-issue_lease :
      (p : LeaseIssueParams) (draw : Draw) (l : ExecutionLeaseHeader)
      → issue_lease host issuer p draw ≡ returned l
      → (verify_lease host issuer l ≡ true) × (header_ok host l ≡ true)
  unfolding issue_lease
  verify-issue_lease p draw l h =
      let sealed = λ (a b : String).
        parse_header host issuer (sign_lease host issuer (unsigned_lease p draw a b)) in
      let (a, b, _, _, parsed) =
        from_dates (iso_of host draw.now)
          (iso_of host (requested_expiry issuer p.ttl_seconds draw.now)) sealed h in
      let (same, schema) = parse_header-signed l (unsigned_lease p draw a b) parsed in
      (rw same (verify-sign_lease (unsigned_lease p draw a b)), schema)

  parse_delegated-signed :
      (l l₀ : DelegatedLeaseHeader)
      → parse_delegated host issuer (sign_delegated host issuer l₀) ≡ returned l
      → (l ≡ sign_delegated host issuer l₀) × (delegated_ok host l ≡ true)
  unfolding parse_delegated
  parse_delegated-signed l l₀ h = ground arith

  verify-sign_delegated :
      (l : DelegatedLeaseHeader)
      → verify_delegated_lease host issuer (sign_delegated host issuer l) ≡ true
  unfolding verify_delegated_lease sign_delegated
  verify-sign_delegated l = verify_delegated-signed host l issuer.secret_key

  in_sequence-next :
      (parent : ParentLease) (depth : ℕ)
      → in_sequence parent depth ≡ true
      → (l : DelegatedLeaseHeader) → parent ≡ delegated l
      → depth ≡ suc l.delegation_depth
  in_sequence-next parent depth h l e =
      let at : in_sequence (delegated l) depth ≡ true = rw e at h in ground (arith, at)

  -- What an issued child lease keeps of its parent.
  pub record Attenuates (now : ℕ) (parent : ParentLease) (child : DelegatedLeaseHeader)
      : Type 0 where
    pub signed_parent : parent_signed host issuer parent ≡ true
    pub verified : verify_delegated_lease host issuer child ≡ true
    pub schema : delegated_ok host child ≡ true
    pub same_tenant : child.base.tenant_id ≡ (header parent).tenant_id
    pub names_parent : child.parent_lease_id ≡ (header parent).lease_id
    pub names_task : child.parent_task_id ≡ (header parent).task_id
    pub deep : 1 ≤ child.delegation_depth
    pub not_too_deep : child.delegation_depth ≤ 3
    pub next_depth :
        (l : DelegatedLeaseHeader)
        → parent ≡ delegated l
        → child.delegation_depth ≡ suc l.delegation_depth
    pub parent_ends : ℕ
    pub child_ends : ℕ
    pub parent_date : host.date_ms (header parent).expires_at ≡ some parent_ends
    pub child_date : host.date_ms child.base.expires_at ≡ some child_ends
    pub parent_alive : now < parent_ends
    pub no_later : child_ends ≤ parent_ends
    pub granted : All (Granted (header parent).scopes) child.base.scopes

  guard_scopes-returned :
      (r : AttenuationResult) {u : Unit {0}} → guard_scopes r ≡ returned u → is_valid r ≡ true
  guard_scopes-returned valid h = refl
  guard_scopes-returned (invalid us e) h = cc

  -- The checks, taken apart.
  check_delegation-returned :
      (p : DelegatedLeaseIssueParams) (now : ℕ)
      → check_delegation host issuer p now ≡ returned tt
      → (parent_signed host issuer p.parent_lease ≡ true)
        × (not_before now (host.date_ms (header p.parent_lease).expires_at) ≡ false)
        × (p.tenant_id ≡ (header p.parent_lease).tenant_id)
        × (p.parent_task_id ≡ (header p.parent_lease).task_id)
        × (1 ≤ p.delegation_depth)
        × (p.delegation_depth ≤ 3)
        × (in_sequence p.parent_lease p.delegation_depth ≡ true)
        × (is_valid (verify_scope_attenuation (header p.parent_lease).scopes p.attenuated_scopes)
            ≡ true)
  unfolding check_delegation
  check_delegation-returned p now h = ground (
    arith,
    eq_iff p.tenant_id (header p.parent_lease).tenant_id,
    eq_iff p.parent_task_id (header p.parent_lease).task_id,
    guard_scopes-returned
        (verify_scope_attenuation (header p.parent_lease).scopes p.attenuated_scopes),
  )

  -- The child's expiry is a time no later than the parent's.
  bounded_iso-bound :
      ReadsBack host
      → (requested now : ℕ) (parent : Option ℕ) {text : String} → not_before now parent ≡ false
      → bounded_iso host issuer requested parent ≡ some text
      → (p e : ℕ) × (parent ≡ some p) × (host.date_ms text ≡ some e) × (now < p) × (e ≤ p)
  bounded_iso-bound reads requested now none b h = cc
  bounded_iso-bound reads requested now (some p) b h =
      (p, min requested p, refl, ground (arith, reads (min requested p)), ground arith, omega arith)

  -- On a host whose dates read back as they were written, every child lease that is issued is
  -- attenuated: it names its parent, tenant and task, is signed, lies at depth 1 to 3 (any of these
  -- below a root lease, one more than the parent's below a delegated one), asks only for scopes that the parent grants, and ends no later than
  -- the parent, which was authentic and had not ended.
  pub issue_delegated-Attenuates :
      (p : DelegatedLeaseIssueParams) (draw : Draw) (child : DelegatedLeaseHeader)
      → ReadsBack host
      → issue_delegated_lease host issuer p draw ≡ returned child
      → Attenuates draw.now p.parent_lease child
  unfolding issue_delegated_lease child_lease sign_delegated
  issue_delegated-Attenuates p draw child reads h =
      let requested = requested_expiry issuer p.ttl_seconds draw.now in
      let parent_end = host.date_ms (header p.parent_lease).expires_at in
      let sealed = λ (a b : String).
        parse_delegated host issuer (sign_delegated host issuer (child_lease p draw a b)) in
      let (u, checks, h₁) =
        >>=-eq-returned (check_delegation host issuer p draw.now)
          (λ _. or_throw (iso_of host draw.now) invalid_date >>= λ a.
            or_throw (bounded_iso host issuer requested parent_end) invalid_date >>= λ b.
            sealed a b)
          h in
      let (a, b, _, bound, parsed) =
        from_dates (iso_of host draw.now) (bounded_iso host issuer requested parent_end) sealed
          h₁ in
      let (same, schema) = parse_delegated-signed child (child_lease p draw a b) parsed in
      let (signed, alive, tenant, task, low, high, next, scopes) =
        check_delegation-returned p draw.now checks in
      let (pe, ce, pd, cd, before, no_later) =
        bounded_iso-bound reads requested draw.now parent_end alive bound in
      rw same (record {
        signed_parent = signed;
        verified = verify-sign_delegated (child_lease p draw a b);
        schema = rw same at schema;
        same_tenant = tenant;
        names_parent = refl;
        names_task = task;
        deep = low;
        not_too_deep = high;
        next_depth = in_sequence-next p.parent_lease p.delegation_depth next;
        parent_ends = pe;
        child_ends = ce;
        parent_date = pd;
        child_date = cd;
        parent_alive = before;
        no_later = no_later;
        granted = ((attenuation_iff (header p.parent_lease).scopes p.attenuated_scopes).0 scopes).2;
      })
