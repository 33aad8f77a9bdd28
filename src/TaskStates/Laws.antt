-- ===== src/TaskStates/Laws.antt =====
-- `isTerminal` and the table of services/backend/src/tasks/state-machine.ts.
use nexus_os_ai_workspace.Base.{◌≡◌, refl, ◌↔◌, true, false, arith}
use nexus_os_ai_workspace.TaskStates.{
  TaskLifecycleState, submitted, policy_evaluated, leased, dispatched, executing, awaiting_approval,
  receipt_verified, completed, failed, cancelled, can_transition, is_terminal,
}

-- A state is terminal exactly when the table lets no state follow it.
pub is_terminal_iff :
    (s : TaskLifecycleState)
    → (is_terminal s ≡ true) ↔ ((t : TaskLifecycleState) → can_transition s t ≡ false)
unfolding is_terminal can_transition
is_terminal_iff submitted = (λ h. ground arith, λ all. cc (all failed))
is_terminal_iff policy_evaluated = (λ h. ground arith, λ all. cc (all failed))
is_terminal_iff leased = (λ h. ground arith, λ all. cc (all failed))
is_terminal_iff dispatched = (λ h. ground arith, λ all. cc (all failed))
is_terminal_iff executing = (λ h. ground arith, λ all. cc (all failed))
is_terminal_iff awaiting_approval = (λ h. ground arith, λ all. cc (all failed))
is_terminal_iff receipt_verified = (λ h. ground arith, λ all. cc (all failed))
is_terminal_iff completed = (λ h t. refl, λ all. refl)
is_terminal_iff failed = (λ h t. refl, λ all. refl)
is_terminal_iff cancelled = (λ h t. refl, λ all. refl)
