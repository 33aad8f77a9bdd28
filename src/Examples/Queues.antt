-- ===== src/Examples/Queues.antt =====
-- The scheduler's queue at concrete calls.
use nexus_os_ai_workspace.Base.{
  ◌+◌, ◌<◌, String, ◌≡◌, ◌≢◌, ◌⊎◌, refl, Bool, true, false, Option, none, some, List, [], ◌∷◌, All,
  count, if◌then◌else◌, ◌==◌, eq_iff,
}
use nexus_os_ai_workspace.Leases.Types.{ExecutionLeaseHeader}
use nexus_os_ai_workspace.Scheduler.Items.{normal, Request, Item}
use nexus_os_ai_workspace.Scheduler.Queue.{
  ExecutionQueue, lane, lane_order, new_queue, dequeue, remove, prune_expired, total, is_expired,
  every_lane,
}
use nexus_os_ai_workspace.Scheduler.Queue.Bounds.{Inv}
use nexus_os_ai_workspace.Scheduler.Queue.Service.{
  Served, Idle, dequeue-Served, dequeue-none, dequeue-total,
}
use nexus_os_ai_workspace.Scheduler.Queue.Fairness.{dequeue-rotates, serving_lane}
use nexus_os_ai_workspace.Scheduler.Queue.RoundRobin.{HasOther}
use nexus_os_ai_workspace.Scheduler.Queue.Upkeep.{Removed, remove_cases}
use nexus_os_ai_workspace.Scheduler.Queue.Aging.{prune_expired-split}
use nexus_os_ai_workspace.Scheduler.Queue.Runs.{
  enqueues, dequeues, removes, prunes, ages, run, run-Inv,
}

abbrev lease : ExecutionLeaseHeader
lease = record {
  lease_id = "l1";
  task_id = "t1";
  agent_id = "device";
  tenant_id = "acme";
  issued_at = "";
  expires_at = "..........";
  scopes = "agent:foundation" ∷ [];
  signature = "a1b2";
  nonce = none;
  policy_hash = none;
}

abbrev request : String → Request
request id = record {
  task_id = id;
  step_id = "s";
  correlation_id = "c";
  lease_header = lease;
  is_critical = true;
  is_interactive = false;
  is_background = false;
}

abbrev item : String → String → Item
item id tenant = record {
  request = request id;
  priority_lane = normal;
  tenant_id = tenant;
  queued_at = 1;
  expires_at = 50;
  retry_count = 0;
  next_retry_at = none;
}

abbrev a1 : Item
a1 = item "a1" "acme"

abbrev a2 : Item
a2 = item "a2" "acme"

abbrev b1 : Item
b1 = item "b1" "brix"

abbrev holding : List Item → Option String → ExecutionQueue
holding items served = record {
  lanes = record (every_lane []) { normal_lane = items };
  last_served_tenant = record (every_lane none) { normal_lane = served };
  max_capacity = 5;
  max_per_tenant_quota = 2;
  aging_threshold_ms = 10;
}

abbrev full : ExecutionQueue
full = holding (a1 ∷ a2 ∷ b1 ∷ []) none

abbrev after_one : ExecutionQueue
after_one = holding (a2 ∷ b1 ∷ []) (some "acme")

abbrev after_two : ExecutionQueue
after_two = holding (a2 ∷ []) (some "brix")

abbrev empty : ExecutionQueue
empty = holding [] none

first_served : dequeue 3 full ≡ (after_one, some a1)
unfolding dequeue
first_served = refl

second_served : dequeue 4 after_one ≡ (after_two, some b1)
unfolding dequeue
second_served = refl

none_served : dequeue 3 empty ≡ (empty, none)
unfolding dequeue
none_served = refl

dequeue-Served_example : Served 3 full after_one a1 lane_order
dequeue-Served_example = dequeue-Served 3 full {q' = after_one} {item = a1} first_served

dequeue-none_example : (empty ≡ empty) × All (Idle 3 empty) lane_order
dequeue-none_example = dequeue-none 3 empty {q' = empty} none_served

abbrev of_acme : Item → Bool
of_acme i = i.tenant_id == "acme"

dequeue-total_example :
    total of_acme full.lanes ≡ total of_acme after_one.lanes + (if of_acme a1 then 1 else 0)
dequeue-total_example = dequeue-total 3 full {q' = after_one} {item = a1} of_acme first_served

another_waits : HasOther "acme" (lane normal after_one.lanes)
another_waits = (1, b1, refl, λ e. cc ((eq_iff "brix" "acme").1 e))

normal_serves_first : serving_lane 3 full lane_order ≡ some normal
unfolding dequeue
normal_serves_first = refl

normal_serves_second : serving_lane 4 after_one lane_order ≡ some normal
unfolding dequeue
normal_serves_second = refl

dequeue-rotates_example : b1.tenant_id ≢ a1.tenant_id
dequeue-rotates_example =
    dequeue-rotates 3 4 full after_one after_two a1 b1 normal first_served second_served
      normal_serves_first normal_serves_second (λ e. cc) (λ e. cc) another_waits

run-Inv_example : Inv (
    run
      (new_queue 5 2 10)
      (enqueues a1 ∷ enqueues b1 ∷ ages 20 ∷ dequeues 21 ∷ removes "b1" none ∷ prunes 60 ∷ []))
run-Inv_example =
    run-Inv 5 2 10
      (enqueues a1 ∷ enqueues b1 ∷ ages 20 ∷ dequeues 21 ∷ removes "b1" none ∷ prunes 60 ∷ [])

remove_cases_example :
    (remove full "a2" (some "acme") ≡ (full, none))
    ⊎ ((q' : ExecutionQueue) × (i : Item) × (remove full "a2" (some "acme") ≡ (q', some i))
        × Removed "a2" (some "acme") full q' i
        × ((p : Item → Bool) → total p full.lanes ≡ total p q'.lanes + (if p i then 1 else 0)))
remove_cases_example = remove_cases full "a2" (some "acme")

prune_expired-split_example :
    let (q', gone) = prune_expired full 60 in
    All (λ (i : Item). i.expires_at < 60) gone
    × (total (is_expired 60) q'.lanes ≡ 0)
    × ((p : Item → Bool) → total p q'.lanes + count p gone ≡ total p full.lanes)
prune_expired-split_example = prune_expired-split full 60
