-- ===== src/TaskStates/Stages.antt =====
-- Runs of services/backend/src/tasks/state-machine.ts: the stages that a task passes.
use nexus_os_ai_workspace.Base.{
  ℕ, String, ◌≡◌, ◌≢◌, ◌⊎◌, inl, inr, Bool-cases, refl, Bool, true, false, Option, none, some, List,
  [], ◌∷◌, map, arith, sym, ap, ◌∙◌,
}
use nexus_os_ai_workspace.TaskStates.{
  TaskLifecycleState, submitted, policy_evaluated, leased, dispatched, executing, awaiting_approval,
  receipt_verified, completed, failed, cancelled, TaskRecord, Transition, moved, illegal,
  same_state, can_transition, transition, is_terminal, error_after,
}

-- One call of `transition`: the target, the reason and the time.
pub record Request : Type 0 where
  pub target : TaskLifecycleState
  pub reason : Option String
  pub now : ℕ

module _ {ℓ} {B : Type ℓ} where
  -- A task taken through a list of calls; it stops at the first that throws.
  unfoldable pub run : TaskRecord B → List Request → Transition B
  run task [] = moved task
  run task (q ∷ qs) = elim (transition task q.target q.reason q.now) [
    | moved next ↦ run next qs
    | illegal s t ↦ illegal s t
  ]

-- Whether the first list is left when entries are dropped from the second.
abbrev pub is_sublist : List TaskLifecycleState → List TaskLifecycleState → Bool
is_sublist [] ts = true
is_sublist (s ∷ ss) [] = false
is_sublist (s ∷ ss) (t ∷ ts) = elim (same_state s t) [
  | true ↦ is_sublist ss ts
  | false ↦ is_sublist (s ∷ ss) ts
]

-- The stages between a state and completion.
abbrev pub stages_from : TaskLifecycleState → List TaskLifecycleState
stages_from submitted =
    policy_evaluated ∷ leased ∷ dispatched ∷ executing ∷ receipt_verified ∷ completed ∷ []
stages_from policy_evaluated = leased ∷ dispatched ∷ executing ∷ receipt_verified ∷ completed ∷ []
stages_from leased = dispatched ∷ executing ∷ receipt_verified ∷ completed ∷ []
stages_from dispatched = executing ∷ receipt_verified ∷ completed ∷ []
stages_from executing = receipt_verified ∷ completed ∷ []
stages_from awaiting_approval = executing ∷ receipt_verified ∷ completed ∷ []
stages_from receipt_verified = completed ∷ []
stages_from completed = []
stages_from failed = completed ∷ []
stages_from cancelled = completed ∷ []

is_sublist-tail :
    (s : TaskLifecycleState) (ss ts : List TaskLifecycleState)
    → is_sublist (s ∷ ss) ts ≡ true
    → is_sublist ss ts ≡ true
is_sublist-tail s [] ts h = refl
is_sublist-tail s (r ∷ ss) [] h = ground arith
is_sublist-tail s (r ∷ ss) (t ∷ ts) h =
    ground (arith, is_sublist-tail s (r ∷ ss) ts, is_sublist-tail r ss ts)

-- A stage reached by an allowed transition leaves no stage out.
stage_step :
    (s t : TaskLifecycleState) (ts : List TaskLifecycleState)
    → can_transition s t ≡ true
    → (is_terminal t ≡ false) ⊎ (t ≡ completed)
    → is_sublist (stages_from t) ts ≡ true
    → is_sublist (stages_from s) (t ∷ ts) ≡ true
unfolding can_transition is_terminal
stage_step s t ts c e h =
    ground (arith, is_sublist-tail executing (receipt_verified ∷ completed ∷ []) ts)

-- A record in a terminal state is the end of its run: no call is accepted after it.
pub run_terminal {ℓ} :
    {B : Type ℓ} (task : TaskRecord B) (qs : List Request) {r : TaskRecord B}
    → is_terminal task.state ≡ true
    → run task qs ≡ moved r
    → (qs ≡ []) × (r ≡ task)
unfolding run transition is_terminal
run_terminal task [] t h = ground arith
run_terminal task (q ∷ qs) t h = ground arith

abbrev pub targets : List Request → List TaskLifecycleState
targets qs = map (λ (q : Request). q.target) qs

module _ {ℓ} {B : Type ℓ} where
  error_after_kept :
      (task : TaskRecord B) (t : TaskLifecycleState) (reason : Option String)
      → (t ≡ failed) ⊎ (error_after task t reason ≡ task.error)
  unfolding error_after
  error_after_kept task t none = inr refl
  error_after_kept task t (some reason) = ground arith

  -- A step of an accepted run, taken apart.
  run_step :
      (task : TaskRecord B) (q : Request) (qs : List Request) {r : TaskRecord B}
      → run task (q ∷ qs) ≡ moved r
      → (next : TaskRecord B) × (can_transition task.state q.target ≡ true)
        × (next.state ≡ q.target)
        × ((q.target ≡ failed) ⊎ (next.error ≡ task.error))
        × (run next qs ≡ moved r)
  unfolding run transition
  run_step task q qs h = (
    record task {
      state = q.target;
      error = error_after task q.target q.reason;
      updated_at = q.now;
    },
    ground arith,
    ground arith,
    ground (arith, error_after_kept task q.target q.reason),
    ground arith,
  )

  -- A run of accepted calls that ends in COMPLETED has passed every stage that was still ahead of
  -- the task, in order: from SUBMITTED these are the policy evaluation, the lease, the dispatch,
  -- the execution and the verified receipt.
  pub run_stages :
      (task : TaskRecord B) (qs : List Request) {r : TaskRecord B}
      → run task qs ≡ moved r
      → r.state ≡ completed
      → is_sublist (stages_from task.state) (targets qs) ≡ true
  unfolding run
  run_stages task [] h e = ground arith
  run_stages task (q ∷ qs) {r} h e =
      let (next, c, n, k, m) = run_step task q qs h in
      elim (Bool-cases (is_terminal q.target)) [
        | inl t ↦
            let last : r.state ≡ next.state =
              ap (λ x. x.state) (run_terminal next qs (rw n t) m).1 in
            let done : q.target ≡ completed = sym n ∙ sym last ∙ e in
            stage_step task.state q.target (targets qs) c (inr done) (rw done)
        | inr f ↦
            stage_step task.state q.target (targets qs) c (inl f)
              (rw (← n) (run_stages next qs m e))
      ]

  -- A task whose run ends in another state than `failed` has the error that it had before.
  pub run_error :
      (task : TaskRecord B) (qs : List Request) {r : TaskRecord B}
      → run task qs ≡ moved r
      → r.state ≢ failed
      → r.error ≡ task.error
  unfolding run is_terminal
  run_error task [] h e = ground arith
  run_error task (q ∷ qs) h e =
      let (next, c, n, k, m) = run_step task q qs h in
      ground (
        arith,
        n,
        k,
        run_error next qs m e,
        λ (p : is_terminal next.state ≡ true). run_terminal next qs p m,
      )
