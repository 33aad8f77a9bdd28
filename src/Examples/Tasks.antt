-- ===== src/Examples/Tasks.antt =====
-- Runs of the task state machine.
use nexus_os_ai_workspace.Base.{ℕ, ◌≡◌, refl, ◌↔◌, true, false, none, List, [], ◌∷◌}
use nexus_os_ai_workspace.TaskStates.{
  TaskLifecycleState, submitted, policy_evaluated, leased, dispatched, executing, awaiting_approval,
  receipt_verified, completed, failed, TaskRecord, moved, is_terminal, can_transition, transition,
}
use nexus_os_ai_workspace.TaskStates.Laws.{is_terminal_iff}
use nexus_os_ai_workspace.TaskStates.Stages.{
  Request, run, run_stages, run_error, is_sublist, stages_from, targets,
}

abbrev at_state : TaskLifecycleState → ℕ → TaskRecord (Unit {0})
at_state s t = record { state = s; error = none; updated_at = t; body = tt }

abbrev to : TaskLifecycleState → ℕ → Request
to s t = record { target = s; reason = none; now = t }

abbrev calls : List Request
calls =
    to policy_evaluated 1
    ∷ to leased 2
    ∷ to dispatched 3
    ∷ to awaiting_approval 4
    ∷ to executing 5
    ∷ to receipt_verified 6
    ∷ to completed 7
    ∷ []

all_accepted : run (at_state submitted 0) calls ≡ moved (at_state completed 7)
unfolding run transition
all_accepted = refl

run_stages_example : is_sublist (stages_from submitted) (targets calls) ≡ true
run_stages_example =
    run_stages (at_state submitted 0) calls {r = at_state completed 7} all_accepted refl

run_error_example : (at_state completed 7).error ≡ (at_state submitted 0).error
run_error_example =
    run_error (at_state submitted 0) calls {r = at_state completed 7} all_accepted (λ e. cc)

done_already : is_terminal completed ≡ true
unfolding is_terminal
done_already = refl

stays : run (at_state completed 7) [] ≡ moved (at_state completed 7)
unfolding run
stays = refl

abbrev none_left : List Request
none_left = []

is_terminal_iff_example :
    (is_terminal failed ≡ true) ↔ ((t : TaskLifecycleState) → can_transition failed t ≡ false)
is_terminal_iff_example = is_terminal_iff failed
