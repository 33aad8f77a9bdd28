-- ===== src/Leases/Issuer.antt =====
-- The lease issuer: class `LeaseIssuer` of services/backend/src/leases/lease-issuer.ts. The clock and
-- the random identifiers that a call draws are its arguments; a thrown error is `thrown`.
use nexus_os_ai_workspace.Base.{
  ℕ, ◌+◌, ◌*◌, String, Bool, true, false, not, ◌||◌, Option, none, some, List, ◌==◌, if◌then◌else◌,
  ltb, leb, eqb, min, get_or, Result, returned, thrown, ◌>>=◌, ◌>>◌, require, utf16_length,
}
use nexus_os_ai_workspace.Host.{Host, iso_of}
use nexus_os_ai_workspace.Leases.Types.{
  ExecutionLeaseHeader, DelegatedLeaseHeader, header_ok, delegated_ok,
}
use nexus_os_ai_workspace.Leases.Scopes.{
  ErrorCode, AttenuationResult, valid, invalid, verify_scope_attenuation,
}
use nexus_os_ai_workspace.Leases.Signature.{
  compute_lease_signature, compute_delegated_signature, verify_lease_signature,
  verify_delegated_signature,
}

pub data IssueError : Type 0 where
  short_secret parent_forged parent_expired tenant_mismatch task_mismatch : IssueError
  depth_out_of_range depth_out_of_sequence : IssueError
  scope_escalation : ErrorCode → IssueError
  -- A RangeError of `toISOString`, and an error of the schema's `parse`.
  invalid_date schema_violation : IssueError

pub record LeaseIssuer : Type 0 where
  pub secret_key : String
  pub default_ttl_seconds : ℕ

-- The two forms of the constructor's first argument.
pub data IssuerArgument : Type 0 where
  key : String → IssuerArgument
  options : (lease_secret : String) (ttl_seconds default_ttl_seconds : Option ℕ) → IssuerArgument

abbrev issuer_of : IssuerArgument → ℕ → LeaseIssuer
issuer_of (key secret) ttl = record { secret_key = secret; default_ttl_seconds = ttl }
issuer_of (options secret ttl default) given = record {
  secret_key = secret;
  default_ttl_seconds = get_or ttl (get_or default 300);
}

unfoldable pub new_issuer : IssuerArgument → ℕ → Result IssueError LeaseIssuer
new_issuer arg ttl =
    let issuer = issuer_of arg ttl in
    if issuer.secret_key == "" || ltb (utf16_length issuer.secret_key) 16
    then thrown short_secret
    else returned issuer

pub record LeaseIssueParams : Type 0 where
  pub task_id : String
  pub agent_id : String
  pub tenant_id : String
  pub scopes : List String
  pub ttl_seconds : Option ℕ
  pub policy_hash : Option String
  pub nonce : Option String

-- Either kind of header can be the parent of a delegation.
pub data ParentLease : Type 0 where
  root : ExecutionLeaseHeader → ParentLease
  delegated : DelegatedLeaseHeader → ParentLease

abbrev pub header : ParentLease → ExecutionLeaseHeader
header (root l) = l
header (delegated l) = l.base

pub record DelegatedLeaseIssueParams : Type 0 where
  pub parent_lease : ParentLease
  pub parent_task_id : String
  pub child_task_id : String
  pub child_agent_id : String
  pub tenant_id : String
  pub workspace_id : String
  pub attenuated_scopes : List String
  pub delegation_depth : ℕ
  pub ttl_seconds : Option ℕ
  pub policy_hash : Option String
  pub nonce : Option String

abbrev pub or_throw {ℓ κ} : {E : Type κ} {A : Type ℓ} → Option A → E → Result E A
or_throw none e = thrown e
or_throw (some a) e = returned a

-- `now.getTime() >= parentExpiresAt`, which is false of NaN.
abbrev pub not_before : ℕ → Option ℕ → Bool
not_before now none = false
not_before now (some t) = leb t now

-- A delegated parent fixes the depth of the child.
abbrev pub in_sequence : ParentLease → ℕ → Bool
in_sequence (root l) depth = true
in_sequence (delegated l) depth = eqb depth (l.delegation_depth + 1)

abbrev pub guard_scopes : AttenuationResult → Result IssueError (Unit {0})
guard_scopes valid = returned tt
guard_scopes (invalid us e) = thrown (scope_escalation e)

-- The random identifiers of one call, and the clock.
pub record Draw : Type 0 where
  pub lease_uuid : String
  pub nonce_uuid : String
  pub now : ℕ

-- The signature is no part of the payload, so an unsigned lease is one with an empty signature.
unfoldable pub unsigned_lease : LeaseIssueParams → Draw → String → String → ExecutionLeaseHeader
unsigned_lease p draw issued expires = record {
  lease_id = draw.lease_uuid;
  task_id = p.task_id;
  agent_id = p.agent_id;
  tenant_id = p.tenant_id;
  issued_at = issued;
  expires_at = expires;
  scopes = p.scopes;
  signature = "";
  nonce = some (get_or p.nonce draw.nonce_uuid);
  policy_hash = p.policy_hash;
}

-- The unsigned child header, from the text of its two dates.
unfoldable pub child_lease :
    DelegatedLeaseIssueParams → Draw → String → String → DelegatedLeaseHeader
child_lease p draw issued expires = record {
  base = record {
    lease_id = draw.lease_uuid;
    task_id = p.child_task_id;
    agent_id = p.child_agent_id;
    tenant_id = p.tenant_id;
    issued_at = issued;
    expires_at = expires;
    scopes = p.attenuated_scopes;
    signature = "";
    nonce = some (get_or p.nonce draw.nonce_uuid);
    policy_hash = p.policy_hash;
  };
  parent_lease_id = (header p.parent_lease).lease_id;
  parent_task_id = p.parent_task_id;
  delegation_depth = p.delegation_depth;
  workspace_id = p.workspace_id;
}

-- The time at which a lease with the given or the default term ends.
unfoldable pub requested_expiry : LeaseIssuer → Option ℕ → ℕ → ℕ
requested_expiry issuer ttl now = now + get_or ttl issuer.default_ttl_seconds * 1000

module _ (host : Host) (issuer : LeaseIssuer) where
  unfoldable pub sign_lease : ExecutionLeaseHeader → ExecutionLeaseHeader
  sign_lease l = record l { signature = compute_lease_signature host l issuer.secret_key }

  -- `ExecutionLeaseHeaderSchema.parse` and `DelegatedLeaseHeaderSchema.parse`.
  unfoldable pub parse_header : ExecutionLeaseHeader → Result IssueError ExecutionLeaseHeader
  parse_header l = if header_ok host l then returned l else thrown schema_violation

  unfoldable pub parse_delegated : DelegatedLeaseHeader → Result IssueError DelegatedLeaseHeader
  parse_delegated l = if delegated_ok host l then returned l else thrown schema_violation

  unfoldable pub issue_lease : LeaseIssueParams → Draw → Result IssueError ExecutionLeaseHeader
  unfolding sign_lease parse_header unsigned_lease requested_expiry
  issue_lease p draw = do
    issued ← or_throw (iso_of host draw.now) invalid_date
    expires ← or_throw (iso_of host (requested_expiry issuer p.ttl_seconds draw.now)) invalid_date
    parse_header (sign_lease (unsigned_lease p draw issued expires))

  unfoldable pub verify_lease : ExecutionLeaseHeader → Bool
  verify_lease l = verify_lease_signature host l issuer.secret_key

  unfoldable pub verify_delegated_lease : DelegatedLeaseHeader → Bool
  verify_delegated_lease l = verify_delegated_signature host l issuer.secret_key

  unfoldable pub parent_signed : ParentLease → Bool
  parent_signed (root l) = verify_lease_signature host l issuer.secret_key
  parent_signed (delegated l) = verify_delegated_signature host l issuer.secret_key

  -- `new Date(Math.min(requested, parentExpiresAt)).toISOString()`: NaN makes it throw.
  abbrev pub bounded_iso : ℕ → Option ℕ → Option String
  bounded_iso requested none = none
  bounded_iso requested (some t) = iso_of host (min requested t)

  unfoldable pub sign_delegated : DelegatedLeaseHeader → DelegatedLeaseHeader
  sign_delegated l = record l {
    base = record l.base { signature = compute_delegated_signature host l issuer.secret_key };
  }

  -- Checks 1 to 6, in the order of the source.
  unfoldable pub check_delegation : DelegatedLeaseIssueParams → ℕ → Result IssueError (Unit {0})
  unfolding parent_signed
  check_delegation p now = do
    require (parent_signed p.parent_lease) parent_forged
    require (not (not_before now (host.date_ms (header p.parent_lease).expires_at))) parent_expired
    require (p.tenant_id == (header p.parent_lease).tenant_id) tenant_mismatch
    require (p.parent_task_id == (header p.parent_lease).task_id) task_mismatch
    require (not (ltb 3 p.delegation_depth || ltb p.delegation_depth 1)) depth_out_of_range
    require (in_sequence p.parent_lease p.delegation_depth) depth_out_of_sequence
    guard_scopes (verify_scope_attenuation (header p.parent_lease).scopes p.attenuated_scopes)

  unfoldable pub issue_delegated_lease :
      DelegatedLeaseIssueParams → Draw → Result IssueError DelegatedLeaseHeader
  unfolding check_delegation child_lease sign_delegated parse_delegated requested_expiry
  issue_delegated_lease p draw = do
    check_delegation p draw.now
    issued ← or_throw (iso_of host draw.now) invalid_date
    expires ←
        or_throw
          (bounded_iso (requested_expiry issuer p.ttl_seconds draw.now)
            (host.date_ms (header p.parent_lease).expires_at))
          invalid_date
    parse_delegated (sign_delegated (child_lease p draw issued expires))
