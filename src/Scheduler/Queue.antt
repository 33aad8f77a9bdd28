-- ===== src/Scheduler/Queue.antt =====
-- The execution queue: class `ExecutionQueue` of apps/desktop-agent/src/scheduler/execution-queue.ts.
-- Each method returns the new queue with its result; the clock is an argument.
pub mod Splice
pub mod Bounds
pub mod RoundRobin
pub mod Service
pub mod Fairness
pub mod Upkeep
pub mod Aging
pub mod Runs
use nexus_os_ai_workspace.Base.{
  get_elem?, ℕ, suc, ◌+◌, ◌%◌, String, Bool, true, false, not, ◌&&◌, ◌||◌, Option, none, some, List,
  [], ◌∷◌, ◌++◌, ◌==◌, map, remove_first, if◌then◌else◌, ltb, leb, eqb, length, count, filter, find,
  includes, truthy,
}
use nexus_os_ai_workspace.Scheduler.Items.{
  Lane, critical, interactive, normal, retry, background, Item, same_lane,
}
use nexus_os_ai_workspace.Scheduler.Policies.{should_promote_for_aging}
use Splice.{find_index, splice_at, index_of}

pub record Lanes {ℓ} (A : Type ℓ) : Type ℓ where
  pub critical_lane : A
  pub interactive_lane : A
  pub normal_lane : A
  pub retry_lane : A
  pub background_lane : A

abbrev pub lane {ℓ} : {A : Type ℓ} → Lane → Lanes A → A
lane critical ls = ls.critical_lane
lane interactive ls = ls.interactive_lane
lane normal ls = ls.normal_lane
lane retry ls = ls.retry_lane
lane background ls = ls.background_lane

abbrev pub set_lane {ℓ} : {A : Type ℓ} → Lane → A → Lanes A → Lanes A
set_lane critical a ls = record ls { critical_lane = a }
set_lane interactive a ls = record ls { interactive_lane = a }
set_lane normal a ls = record ls { normal_lane = a }
set_lane retry a ls = record ls { retry_lane = a }
set_lane background a ls = record ls { background_lane = a }

pub record ExecutionQueue : Type 0 where
  pub lanes : Lanes (List Item)
  pub last_served_tenant : Lanes (Option String)
  pub max_capacity : ℕ
  pub max_per_tenant_quota : ℕ
  pub aging_threshold_ms : ℕ

abbrev pub every_lane {ℓ} : {A : Type ℓ} → A → Lanes A
every_lane a = record {
  critical_lane = a;
  interactive_lane = a;
  normal_lane = a;
  retry_lane = a;
  background_lane = a;
}

unfoldable pub new_queue : ℕ → ℕ → ℕ → ExecutionQueue
new_queue capacity quota threshold = record {
  lanes = every_lane [];
  last_served_tenant = every_lane none;
  max_capacity = capacity;
  max_per_tenant_quota = quota;
  aging_threshold_ms = threshold;
}

abbrev pub lane_order : List Lane
lane_order = critical ∷ interactive ∷ normal ∷ retry ∷ background ∷ []

-- How many items pass a test, over all lanes.
abbrev pub total : (Item → Bool) → Lanes (List Item) → ℕ
total p ls =
    count p ls.critical_lane
    + count p ls.interactive_lane
    + count p ls.normal_lane
    + count p ls.retry_lane
    + count p ls.background_lane

unfoldable pub get_size : ExecutionQueue → ℕ
get_size q =
    length q.lanes.critical_lane
    + length q.lanes.interactive_lane
    + length q.lanes.normal_lane
    + length q.lanes.retry_lane
    + length q.lanes.background_lane

abbrev pub of_tenant : String → Item → Bool
of_tenant tenant item = item.tenant_id == tenant

unfoldable pub get_tenant_count : ExecutionQueue → String → ℕ
get_tenant_count q tenant = total (of_tenant tenant) q.lanes

unfoldable pub get_lane_count : ExecutionQueue → Lane → ℕ
get_lane_count q l = length (lane l q.lanes)

abbrev pub push : Item → ExecutionQueue → ExecutionQueue
push item q = record q {
  lanes = set_lane item.priority_lane (lane item.priority_lane q.lanes ++ item ∷ []) q.lanes;
}

unfoldable pub enqueue : ExecutionQueue → Item → ExecutionQueue × Bool
unfolding get_size get_tenant_count same_lane
enqueue q item =
    if not (same_lane item.priority_lane critical)
    then if leb q.max_capacity (get_size q)
      then (q, false)
      else if leb q.max_per_tenant_quota (get_tenant_count q item.tenant_id)
      then (q, false)
      else (push item q, true)
    else if leb (q.max_capacity + 10) (get_size q)
    then (q, false)
    else (push item q, true)

abbrev pub visit : List String → String → List String
visit seen tenant = if includes tenant seen then seen else seen ++ tenant ∷ []

-- The loop that collects the tenants of a lane in order of entry.
unfoldable pub unique_tenants : List String → List Item → List String
unique_tenants seen [] = seen
unique_tenants seen (item ∷ items) = unique_tenants (visit seen item.tenant_id) items

-- The tenant after the one served last, in the cycle of tenants; without such, the first.
unfoldable pub target_tenant : Option String → List String → Option String
unfolding index_of
target_tenant none tenants = get_elem? tenants 0
target_tenant (some last) tenants =
    let next = λ (i : ℕ). get_elem? tenants ((i + 1) % length tenants) in
    if last == ""
    then get_elem? tenants 0
    else elim (index_of last tenants) [ none ↦ get_elem? tenants 0 | some i ↦ next i ]

-- `none` is the source's -1.
unfoldable pub find_round_robin_index : Option String → List Item → Option ℕ
unfolding unique_tenants target_tenant find_index
find_round_robin_index last [] = none
find_round_robin_index last (x ∷ xs) =
    let tenants = unique_tenants [] (x ∷ xs) in
    if eqb (length tenants) 1 then some 0 else elim (target_tenant last tenants) [
      | none ↦ none
      | some tenant ↦ find_index (of_tenant tenant) (x ∷ xs)
    ]

-- `!item.nextRetryAt || now >= item.nextRetryAt`.
abbrev pub is_ready : ℕ → Item → Bool
is_ready now item = elim item.next_retry_at [ none ↦ true | some t ↦ leb t now ]

-- The index that is served in a lane.
unfoldable pub served_index : ℕ → ExecutionQueue → Lane → Option ℕ
unfolding find_round_robin_index find_index
served_index now q retry = find_index (is_ready now) q.lanes.retry_lane
served_index now q critical =
    find_round_robin_index q.last_served_tenant.critical_lane q.lanes.critical_lane
served_index now q interactive =
    find_round_robin_index q.last_served_tenant.interactive_lane q.lanes.interactive_lane
served_index now q normal =
    find_round_robin_index q.last_served_tenant.normal_lane q.lanes.normal_lane
served_index now q background =
    find_round_robin_index q.last_served_tenant.background_lane q.lanes.background_lane

abbrev splice_option : Option ℕ → List Item → Option (Item × List Item)
splice_option none items = none
splice_option (some i) items = splice_at i items

-- The item that a lane serves, with the rest of the lane.
unfoldable pub pick : ℕ → ExecutionQueue → Lane → Option (Item × List Item)
unfolding served_index splice_at
pick now q l = splice_option (served_index now q l) (lane l q.lanes)

unfoldable pub dequeue_from : ℕ → ExecutionQueue → List Lane → ExecutionQueue × Option Item
unfolding pick
dequeue_from now q [] = (q, none)
dequeue_from now q (l ∷ ls) =
    let later = dequeue_from now q ls in
    elim (pick now q l) [
      | none ↦ later
      | some (item, items) ↦ (
        record q {
          lanes = set_lane l items q.lanes;
          last_served_tenant = set_lane l (some item.tenant_id) q.last_served_tenant;
        },
        some item,
      )
    ]

unfoldable pub dequeue : ℕ → ExecutionQueue → ExecutionQueue × Option Item
unfolding dequeue_from
dequeue now q = dequeue_from now q lane_order

unfoldable pub peek_from : ℕ → ExecutionQueue → List Lane → Option Item
unfolding served_index
peek_from now q [] = none
peek_from now q (l ∷ ls) =
    let later = peek_from now q ls in
    elim (served_index now q l) [ none ↦ later | some i ↦ get_elem? (lane l q.lanes) i ]

unfoldable pub peek : ℕ → ExecutionQueue → Option Item
unfolding peek_from
peek now q = peek_from now q lane_order

abbrev pub has_task : String → Item → Bool
has_task task_id item = item.request.task_id == task_id

-- `tenantId && item.tenantId !== tenantId`.
abbrev pub is_foreign : Option String → Item → Bool
is_foreign none item = false
is_foreign (some t) item = truthy (some t) && not (item.tenant_id == t)

-- A hit of another tenant ends the search with nothing removed.
unfoldable pub remove_from :
    String → Option String → ExecutionQueue → List Lane → ExecutionQueue × Option Item
remove_from task_id tenant q [] = (q, none)
remove_from task_id tenant q (l ∷ ls) =
    let later = remove_from task_id tenant q ls in
    let items = lane l q.lanes in
    elim (find (has_task task_id) items) [
      | none ↦ later
      | some item ↦ if is_foreign tenant item then (q, none) else (
        record q { lanes = set_lane l (remove_first (has_task task_id) items) q.lanes },
        some item,
      )
    ]

unfoldable pub remove : ExecutionQueue → String → Option String → ExecutionQueue × Option Item
unfolding remove_from
remove q task_id tenant = remove_from task_id tenant q lane_order

abbrev pub is_expired : ℕ → Item → Bool
is_expired now item = ltb item.expires_at now

abbrev pub is_current : ℕ → Item → Bool
is_current now item = not (is_expired now item)

-- The queue without the items that have expired, and those items, lane by lane.
unfoldable pub prune_expired : ExecutionQueue → ℕ → ExecutionQueue × List Item
prune_expired q now =
    let ls = q.lanes in
    (
      record q {
        lanes = record {
          critical_lane = filter (is_current now) ls.critical_lane;
          interactive_lane = filter (is_current now) ls.interactive_lane;
          normal_lane = filter (is_current now) ls.normal_lane;
          retry_lane = filter (is_current now) ls.retry_lane;
          background_lane = filter (is_current now) ls.background_lane;
        };
      },
      filter (is_expired now) ls.critical_lane
          ++ (filter (is_expired now) ls.interactive_lane
              ++ (filter (is_expired now) ls.normal_lane
                  ++ (filter (is_expired now) ls.retry_lane
                      ++ filter (is_expired now) ls.background_lane))),
    )

abbrev pub promoted : Item → Item
promoted item = record item { priority_lane = interactive }

-- The items of the normal lane that have aged go to the end of the interactive lane.
unfoldable pub apply_aging : ExecutionQueue → ℕ → ExecutionQueue
unfolding should_promote_for_aging
apply_aging q now =
    let aged = λ (item : Item). should_promote_for_aging q.aging_threshold_ms item now in
    record q {
      lanes = record q.lanes {
        interactive_lane =
            q.lanes.interactive_lane ++ map promoted (filter aged q.lanes.normal_lane);
        normal_lane = filter (λ item. not (aged item)) q.lanes.normal_lane;
      };
    }
