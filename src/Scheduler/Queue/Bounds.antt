-- ===== src/Scheduler/Queue/Bounds.antt =====
-- The limits of apps/desktop-agent/src/scheduler/execution-queue.ts: what the queue may hold, in all,
-- outside the critical lane, and of one tenant.
use nexus_os_ai_workspace.Base.{
  ℕ, suc, ◌+◌, ◌≤◌, ◌<◌, ◌⊎◌, inl, inr, eq_iff, eq_refl, Bool-cases, String, ◌≡◌, refl, ap, Bool,
  true, false, Option, none, some, List, [], ◌∷◌, ◌++◌, ◌==◌, if◌then◌else◌, length, count, arith,
  count-append,
}
use nexus_os_ai_workspace.Scheduler.Items.{
  Lane, critical, interactive, normal, retry, background, Item, same_lane,
}
use nexus_os_ai_workspace.Scheduler.Queue.{
  ExecutionQueue, Lanes, lane, set_lane, total, get_size, get_tenant_count, of_tenant, new_queue,
  push, enqueue,
}

pub total-set_lane :
    (p : Item → Bool) (l : Lane) (items : List Item) (ls : Lanes (List Item)) (n : ℕ)
    → count p (lane l ls) ≡ count p items + n
    → total p ls ≡ total p (set_lane l items ls) + n
total-set_lane p critical items ls n h = omega arith
total-set_lane p interactive items ls n h = omega arith
total-set_lane p normal items ls n h = omega arith
total-set_lane p retry items ls n h = omega arith
total-set_lane p background items ls n h = omega arith

-- The items that are counted: all, or those of one tenant.
abbrev pub counted : Option String → Item → Bool
counted none item = true
counted (some tenant) item = of_tenant tenant item

-- How many of them lie outside the critical lane.
abbrev pub ordinary : (Item → Bool) → Lanes (List Item) → ℕ
ordinary p ls =
    count p ls.interactive_lane
    + count p ls.normal_lane
    + count p ls.retry_lane
    + count p ls.background_lane

pub record Inv (q : ExecutionQueue) : Type 0 where
  pub fits : total (counted none) q.lanes ≤ q.max_capacity + 10
  pub ordinary_fits : ordinary (counted none) q.lanes ≤ q.max_capacity
  pub quota : (t : String) → ordinary (counted (some t)) q.lanes ≤ q.max_per_tenant_quota

count_all : (xs : List Item) → count (counted none) xs ≡ length xs
count_all [] = refl
count_all (x ∷ xs) = ap suc (count_all xs)

get_size-total : (q : ExecutionQueue) → get_size q ≡ total (counted none) q.lanes
unfolding get_size
get_size-total q = omega (
  arith,
  count_all q.lanes.critical_lane,
  count_all q.lanes.interactive_lane,
  count_all q.lanes.normal_lane,
  count_all q.lanes.retry_lane,
  count_all q.lanes.background_lane,
)

pub new_queue-Inv :
    (capacity tenant_quota threshold : ℕ) → Inv (new_queue capacity tenant_quota threshold)
unfolding new_queue
new_queue-Inv capacity tenant_quota threshold = record {
  fits = omega arith;
  ordinary_fits = omega arith;
  quota = λ t. omega arith;
}

-- An operation that adds nothing.
pub record Shrinks (q q' : ExecutionQueue) : Type 0 where
  pub same_capacity : q'.max_capacity ≡ q.max_capacity
  pub same_quota : q'.max_per_tenant_quota ≡ q.max_per_tenant_quota
  pub fewer : (k : Option String) → total (counted k) q'.lanes ≤ total (counted k) q.lanes
  pub fewer_ordinary :
      (k : Option String) → ordinary (counted k) q'.lanes ≤ ordinary (counted k) q.lanes

pub Shrinks-Inv : (q q' : ExecutionQueue) → Shrinks q q' → Inv q → Inv q'
Shrinks-Inv q q' s v = record {
  fits = omega (arith, s.fewer none, s.same_capacity, v.fits);
  ordinary_fits = omega (arith, s.fewer_ordinary none, s.same_capacity, v.ordinary_fits);
  quota = λ t. omega (arith, s.fewer_ordinary (some t), s.same_quota, v.quota t);
}

-- What `enqueue` adds.
ordinary-push :
    (p : Item → Bool) (l : Lane) (item : Item) (ls : Lanes (List Item))
    → ordinary p (set_lane l (lane l ls ++ item ∷ []) ls)
      ≡ ordinary p ls + (if same_lane l critical then 0 else if p item then 1 else 0)
unfolding same_lane
ordinary-push p critical item ls = omega arith
ordinary-push p interactive item ls = ground (arith, count-append p ls.interactive_lane (item ∷ []))
ordinary-push p normal item ls = ground (arith, count-append p ls.normal_lane (item ∷ []))
ordinary-push p retry item ls = ground (arith, count-append p ls.retry_lane (item ∷ []))
ordinary-push p background item ls = ground (arith, count-append p ls.background_lane (item ∷ []))

total-push :
    (p : Item → Bool) (l : Lane) (item : Item) (ls : Lanes (List Item))
    → total p (set_lane l (lane l ls ++ item ∷ []) ls) ≡ total p ls + (if p item then 1 else 0)
total-push p critical item ls = ground (arith, count-append p ls.critical_lane (item ∷ []))
total-push p interactive item ls = ground (arith, count-append p ls.interactive_lane (item ∷ []))
total-push p normal item ls = ground (arith, count-append p ls.normal_lane (item ∷ []))
total-push p retry item ls = ground (arith, count-append p ls.retry_lane (item ∷ []))
total-push p background item ls = ground (arith, count-append p ls.background_lane (item ∷ []))

-- When there is room for an item.
abbrev HasRoom : ExecutionQueue → Item → Type 0
HasRoom q item =
    ((same_lane item.priority_lane critical ≡ true) × (get_size q < q.max_capacity + 10))
    ⊎ ((same_lane item.priority_lane critical ≡ false)
        × (get_size q < q.max_capacity)
        × (get_tenant_count q item.tenant_id < q.max_per_tenant_quota))

enqueue_cases :
    (q : ExecutionQueue) (item : Item)
    → (enqueue q item ≡ (q, false)) ⊎ ((enqueue q item ≡ (push item q, true)) × HasRoom q item)
unfolding enqueue
enqueue_cases q item = ground arith

push-Inv : (q : ExecutionQueue) (item : Item) → HasRoom q item → Inv q → Inv (push item q)
unfolding get_tenant_count
push-Inv q item room v = record {
  fits =
      ground (arith, get_size-total q, total-push (counted none) item.priority_lane item q.lanes);
  ordinary_fits = ground (
    arith,
    get_size-total q,
    ordinary-push (counted none) item.priority_lane item q.lanes,
    v.ordinary_fits,
  );
  quota = λ t. elim (Bool-cases (item.tenant_id == t)) [
    | inl own ↦ rw (← (eq_iff item.tenant_id t).0 own) (
        ground (
          arith,
          ordinary-push (counted (some item.tenant_id)) item.priority_lane item q.lanes,
          v.quota item.tenant_id,
          eq_refl item.tenant_id,
        ))
    | inr other ↦
        ground (arith, ordinary-push (counted (some t)) item.priority_lane item q.lanes, v.quota t)
  ];
}

-- Enqueueing keeps the limits: at most ten items past the capacity in all, at most the capacity
-- outside the critical lane, and there at most the quota of any tenant.
pub enqueue-Inv : (q : ExecutionQueue) (item : Item) → Inv q → Inv (enqueue q item).0
enqueue-Inv q item v = elim (enqueue_cases q item) [
  | inl e ↦ rw e v
  | inr (e, room) ↦ rw e (push-Inv q item room v)
]
