-- ===== src/Leases/Types.antt =====
-- The lease headers and their schemas: packages/contracts/src/permissions/index.ts.
use nexus_os_ai_workspace.Base.{
  ℕ, String, Bool, true, false, ◌&&◌, Option, List, [], ◌∷◌, nonempty, leb,
}
use nexus_os_ai_workspace.Host.{Host}

pub record ExecutionLeaseHeader : Type 0 where
  pub lease_id : String
  pub task_id : String
  pub agent_id : String
  pub tenant_id : String
  pub issued_at : String
  pub expires_at : String
  pub scopes : List String
  pub signature : String
  pub nonce : Option String
  pub policy_hash : Option String

-- A delegated header is an execution header, extended.
pub record DelegatedLeaseHeader : Type 0 where
  pub base : ExecutionLeaseHeader
  pub parent_lease_id : String
  pub parent_task_id : String
  pub delegation_depth : ℕ
  pub workspace_id : String

abbrev pub some_scope : List String → Bool
some_scope [] = false
some_scope (s ∷ ss) = true

-- `ExecutionLeaseHeaderSchema.safeParse(lease).success` on a value with fields of the right types.
unfoldable pub header_ok : Host → ExecutionLeaseHeader → Bool
header_ok host l =
    host.is_uuid l.lease_id
    && host.is_uuid l.task_id
    && nonempty l.agent_id
    && host.is_uuid l.tenant_id
    && host.is_datetime l.issued_at
    && host.is_datetime l.expires_at
    && some_scope l.scopes
    && nonempty l.signature

-- `DelegatedLeaseHeaderSchema`, which extends it.
unfoldable pub delegated_ok : Host → DelegatedLeaseHeader → Bool
unfolding header_ok
delegated_ok host l =
    header_ok host l.base
    && host.is_uuid l.parent_lease_id
    && host.is_uuid l.parent_task_id
    && leb 1 l.delegation_depth
    && leb l.delegation_depth 3
    && host.is_uuid l.workspace_id
