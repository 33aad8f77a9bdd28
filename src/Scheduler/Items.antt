-- ===== src/Scheduler/Items.antt =====
-- What the scheduler queues: apps/desktop-agent/src/scheduler/types.ts, with the fields of
-- `TaskExecutionRequest` (apps/desktop-agent/src/orchestrator/types.ts) that the scheduler reads. The
-- three flags of the payload are true where the source's `=== true` holds.
use nexus_os_ai_workspace.Base.{ℕ, String, Bool, true, false, Option}
use nexus_os_ai_workspace.Leases.Types.{ExecutionLeaseHeader}

pub data Lane : Type 0 where
  critical interactive normal retry background : Lane

pub record Request : Type 0 where
  pub task_id : String
  pub step_id : String
  pub correlation_id : String
  pub lease_header : ExecutionLeaseHeader
  pub is_critical : Bool
  pub is_interactive : Bool
  pub is_background : Bool

pub record Item : Type 0 where
  pub request : Request
  pub priority_lane : Lane
  pub tenant_id : String
  pub queued_at : ℕ
  pub expires_at : ℕ
  pub retry_count : ℕ
  pub next_retry_at : Option ℕ

unfoldable pub same_lane : Lane → Lane → Bool
same_lane critical critical = true
same_lane interactive interactive = true
same_lane normal normal = true
same_lane retry retry = true
same_lane background background = true
same_lane _ _ = false
