-- ===== src/TaskStates.antt =====
-- The lifecycle of a backend task: services/backend/src/tasks/state-machine.ts and the state enum of
-- packages/contracts/src/tasks/index.ts. A thrown `TaskStateMachineError` is `illegal`, with the two
-- states that it names. `body` stands for the fields of a task record that a transition copies.
pub mod Laws
pub mod Stages
use nexus_os_ai_workspace.Base.{
  ℕ, String, Bool, true, false, ◌&&◌, ◌||◌, Option, none, some, List, [], ◌∷◌, if◌then◌else◌,
  truthy,
}

pub data TaskLifecycleState : Type 0 where
  submitted policy_evaluated leased dispatched executing awaiting_approval : TaskLifecycleState
  receipt_verified completed failed cancelled : TaskLifecycleState

-- `===` on states.
unfoldable pub same_state : TaskLifecycleState → TaskLifecycleState → Bool
same_state submitted submitted = true
same_state policy_evaluated policy_evaluated = true
same_state leased leased = true
same_state dispatched dispatched = true
same_state executing executing = true
same_state awaiting_approval awaiting_approval = true
same_state receipt_verified receipt_verified = true
same_state completed completed = true
same_state failed failed = true
same_state cancelled cancelled = true
same_state _ _ = false

pub record TaskError : Type 0 where
  pub code : String
  pub message : String

pub record TaskRecord {ℓ} (B : Type ℓ) : Type ℓ where
  pub state : TaskLifecycleState
  pub error : Option TaskError
  pub updated_at : ℕ
  pub body : B

-- The table of allowed transitions, a list for each `Set`.
unfoldable pub allowed_transitions : TaskLifecycleState → List TaskLifecycleState
allowed_transitions submitted = policy_evaluated ∷ failed ∷ cancelled ∷ []
allowed_transitions policy_evaluated = leased ∷ failed ∷ cancelled ∷ []
allowed_transitions leased = dispatched ∷ failed ∷ cancelled ∷ []
allowed_transitions dispatched = executing ∷ awaiting_approval ∷ failed ∷ cancelled ∷ []
allowed_transitions executing = receipt_verified ∷ awaiting_approval ∷ failed ∷ cancelled ∷ []
allowed_transitions awaiting_approval = executing ∷ failed ∷ cancelled ∷ []
allowed_transitions receipt_verified = completed ∷ failed ∷ []
allowed_transitions completed = []
allowed_transitions failed = []
allowed_transitions cancelled = []

-- `Set.prototype.has`.
unfoldable pub has : TaskLifecycleState → List TaskLifecycleState → Bool
unfolding same_state
has t [] = false
has t (s ∷ ss) = same_state s t || has t ss

unfoldable pub can_transition : TaskLifecycleState → TaskLifecycleState → Bool
unfolding allowed_transitions has
can_transition current target = has target (allowed_transitions current)

pub data Transition {ℓ} (B : Type ℓ) : Type ℓ where
  moved : TaskRecord B → Transition B
  illegal : TaskLifecycleState → TaskLifecycleState → Transition B

module _ {ℓ} {B : Type ℓ} where
  -- The `error` field after the transition: a failure with a reason overwrites it.
  unfoldable pub error_after : TaskRecord B → TaskLifecycleState → Option String → Option TaskError
  unfolding same_state
  error_after task target none = task.error
  error_after task target (some reason) =
      if same_state target failed && truthy (some reason)
      then some (record { code = "TASK_EXECUTION_FAILED"; message = reason })
      else task.error

  -- `now` is the clock that `new Date()` reads.
  unfoldable pub transition :
      TaskRecord B → TaskLifecycleState → Option String → (now : ℕ) → Transition B
  unfolding can_transition error_after
  transition task target reason now =
      if can_transition task.state target
      then moved
          (record task { state = target; error = error_after task target reason; updated_at = now })
      else illegal task.state target

unfoldable pub is_terminal : TaskLifecycleState → Bool
unfolding same_state
is_terminal s = same_state s completed || same_state s failed || same_state s cancelled
