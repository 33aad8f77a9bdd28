-- ===== src/Scheduler/Admission.antt =====
-- The gate before the scheduler: apps/desktop-agent/src/scheduler/admission-controller.ts. The
-- lifecycle state is `none` where no way to read it was given; the identity has the two fields that
-- are compared.
use nexus_os_ai_workspace.Base.{
  String, ◌≢◌, Bool, false, not, ◌||◌, Option, none, some, if◌then◌else◌, ◌==◌,
}
use nexus_os_ai_workspace.Host.{Host}
use nexus_os_ai_workspace.Policy.{PolicySnapshot}
use nexus_os_ai_workspace.Lifecycle.{AgentLifecycleState, stopping, stopped, failed, is_unsafe}
use nexus_os_ai_workspace.Leases.Types.{ExecutionLeaseHeader, header_ok}
use nexus_os_ai_workspace.Leases.Boundary.{
  LeaseValidation, valid, invalid, Refusal, Draw, validate_lease,
}

pub data AdmissionDecision : Type 0 where
  admitted lifecycle_denied tenant_device_mismatch : AdmissionDecision
  lease_denied : Refusal → AdmissionDecision

pub record AgentIdentity : Type 0 where
  pub device_id : String
  pub paired_tenant_id : String

abbrev gate_closed : Option AgentLifecycleState → Bool
gate_closed none = false
gate_closed (some s) = is_unsafe s

abbrev admit_bound : AgentIdentity → ExecutionLeaseHeader → LeaseValidation → AdmissionDecision
admit_bound identity l (invalid r) = lease_denied r
admit_bound identity l (valid checked) =
    if not (l.agent_id == identity.device_id) || not (l.tenant_id == identity.paired_tenant_id)
    then tenant_device_mismatch
    else admitted

-- `ExecutionLeaseHeaderSchema.parse`, `none` where it throws.
abbrev parsed_lease : Host → ExecutionLeaseHeader → Option ExecutionLeaseHeader
parsed_lease host l = if header_ok host l then some l else none

-- The lease of the request reaches the lease check only if it fits its schema.
unfoldable pub evaluate_admission :
    Host
    → (strict : Bool) → PolicySnapshot
    → (secret : Option String) → Option AgentLifecycleState
    → AgentIdentity
    → Draw
    → ExecutionLeaseHeader
    → AdmissionDecision
evaluate_admission host strict snapshot secret lifecycle identity draw l =
    if gate_closed lifecycle
    then lifecycle_denied
    else admit_bound identity l
        (validate_lease host strict snapshot secret (parsed_lease host l) none none draw)

-- The lifecycle cannot be read, or is not stopping, stopped or failed.
abbrev pub GateOpen : Option AgentLifecycleState → Type 0
GateOpen none = Unit
GateOpen (some s) = (s ≢ stopping) × (s ≢ stopped) × (s ≢ failed)
