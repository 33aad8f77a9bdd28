-- ===== src/Scheduler/Queue/Runs.antt =====
-- Any sequence of calls on the queue of apps/desktop-agent/src/scheduler/execution-queue.ts.
use nexus_os_ai_workspace.Base.{
  ℕ, String, ap, Option, some, List, [], ◌∷◌, Option-cases, inl, inr, arith,
}
use nexus_os_ai_workspace.Scheduler.Items.{Item}
use nexus_os_ai_workspace.Scheduler.Queue.Splice.{splice_at-count}
use nexus_os_ai_workspace.Scheduler.Queue.Service.{dequeue-Served, dequeue-none}
use nexus_os_ai_workspace.Scheduler.Queue.Bounds.{
  Inv, Shrinks, Shrinks-Inv, enqueue-Inv, new_queue-Inv,
}
use nexus_os_ai_workspace.Scheduler.Queue.Upkeep.{Shrinks-refl, lane-Shrinks, remove-Shrinks}
use nexus_os_ai_workspace.Scheduler.Queue.Aging.{prune_expired-Shrinks, apply_aging-Shrinks}
use nexus_os_ai_workspace.Scheduler.Queue.{
  ExecutionQueue, lane, set_lane, enqueue, dequeue, remove, prune_expired, apply_aging, new_queue,
}

-- The calls that change the queue.
pub data Call : Type 0 where
  enqueues : Item → Call
  dequeues : (now : ℕ) → Call
  removes : (task_id : String) → Option String → Call
  prunes : (now : ℕ) → Call
  ages : (now : ℕ) → Call

unfoldable pub step : ExecutionQueue → Call → ExecutionQueue
step q (enqueues item) = (enqueue q item).0
step q (dequeues now) = (dequeue now q).0
step q (removes task_id tenant) = (remove q task_id tenant).0
step q (prunes now) = (prune_expired q now).0
step q (ages now) = apply_aging q now

unfoldable pub run : ExecutionQueue → List Call → ExecutionQueue
unfolding step
run q [] = q
run q (c ∷ cs) = run (step q c) cs

dequeue-Shrinks : (q : ExecutionQueue) (now : ℕ) → Shrinks q (dequeue now q).0
dequeue-Shrinks q now = elim (Option-cases (dequeue now q).1) [
  | inl e ↦
      rw ((dequeue-none now q {q' = (dequeue now q).0} (ap (λ o. ((dequeue now q).0, o)) e)).0)
        (Shrinks-refl q)
  | inr (item, e) ↦
      let s =
        dequeue-Served now q {q' = (dequeue now q).0} {item = item}
          (ap (λ o. ((dequeue now q).0, o)) e) in
      rw s.queue (
        lane-Shrinks q (set_lane s.from (some item.tenant_id) q.last_served_tenant) s.from s.rest
          (λ p. omega (arith, splice_at-count p s.index (lane s.from q.lanes) s.taken)))
]

step-Inv : (q : ExecutionQueue) (c : Call) → Inv q → Inv (step q c)
unfolding step
step-Inv q (enqueues item) v = enqueue-Inv q item v
step-Inv q (dequeues now) v = Shrinks-Inv q _ (dequeue-Shrinks q now) v
step-Inv q (removes task_id tenant) v = Shrinks-Inv q _ (remove-Shrinks q task_id tenant) v
step-Inv q (prunes now) v = Shrinks-Inv q _ (prune_expired-Shrinks q now) v
step-Inv q (ages now) v = Shrinks-Inv q _ (apply_aging-Shrinks q now) v

run_from-Inv : (q : ExecutionQueue) (cs : List Call) → Inv q → Inv (run q cs)
unfolding run
run_from-Inv q [] v = v
run_from-Inv q (c ∷ cs) v = run_from-Inv (step q c) cs (step-Inv q c v)

-- After any calls on a new queue it holds at most ten items past its capacity, at most its capacity
-- outside the critical lane, and there at most the quota of any tenant.
pub run-Inv :
    (capacity tenant_quota threshold : ℕ) (cs : List Call)
    → Inv (run (new_queue capacity tenant_quota threshold) cs)
run-Inv capacity tenant_quota threshold cs =
    run_from-Inv (new_queue capacity tenant_quota threshold) cs
      (new_queue-Inv capacity tenant_quota threshold)
