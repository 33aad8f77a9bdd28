-- ===== src/Scheduler/Queue/Upkeep.antt =====
-- Removal in apps/desktop-agent/src/scheduler/execution-queue.ts.
use nexus_os_ai_workspace.Base.{
  ◌+◌, ◌≤◌, String, ◌≡◌, refl, ap, ◌⊎◌, inl, inr, Bool, false, Option, none, some, List, [], ◌∷◌,
  if◌then◌else◌, count, find, remove_first, arith, Option-cases, Bool-cases, eq_iff,
  count-remove_first, count-remove_first-le, find-passes,
}
use nexus_os_ai_workspace.Scheduler.Items.{
  Lane, critical, interactive, normal, retry, background, Item,
}
use nexus_os_ai_workspace.Scheduler.Queue.Bounds.{total-set_lane, Shrinks, counted, ordinary}
use nexus_os_ai_workspace.Scheduler.Queue.{
  ExecutionQueue, Lanes, lane, set_lane, total, lane_order, has_task, is_foreign, remove_from,
  remove,
}

shrink_lane :
    (p : Item → Bool) (l : Lane) (items : List Item) (ls : Lanes (List Item))
    → count p items ≤ count p (lane l ls)
    → (total p (set_lane l items ls) ≤ total p ls)
      × (ordinary p (set_lane l items ls) ≤ ordinary p ls)
shrink_lane p critical items ls h = omega arith
shrink_lane p interactive items ls h = omega arith
shrink_lane p normal items ls h = omega arith
shrink_lane p retry items ls h = omega arith
shrink_lane p background items ls h = omega arith

pub Shrinks-refl : (q : ExecutionQueue) → Shrinks q q
Shrinks-refl q = record {
  same_capacity = refl;
  same_quota = refl;
  fewer = λ k. omega arith;
  fewer_ordinary = λ k. omega arith;
}

pub lane-Shrinks :
    (q : ExecutionQueue) (served : Lanes (Option String)) (l : Lane) (items : List Item)
    → ((p : Item → Bool) → count p items ≤ count p (lane l q.lanes))
    → Shrinks q (record q { lanes = set_lane l items q.lanes; last_served_tenant = served })
lane-Shrinks q served l items h = record {
  same_capacity = refl;
  same_quota = refl;
  fewer = λ k. (shrink_lane (counted k) l items q.lanes (h (counted k))).0;
  fewer_ordinary = λ k. (shrink_lane (counted k) l items q.lanes (h (counted k))).1;
}

-- No tenant is named, or the item's.
abbrev pub OwnedBy : Option String → Item → Type 0
OwnedBy none item = Unit
OwnedBy (some t) item = (t ≡ "") ⊎ (item.tenant_id ≡ t)

-- What `remove` found, and the queue that it leaves.
pub record Removed (task_id : String) (tenant : Option String) (q q' : ExecutionQueue) (item : Item)
    : Type 0 where
  pub wanted : item.request.task_id ≡ task_id
  pub own : OwnedBy tenant item
  pub from : Lane
  pub held : find (has_task task_id) (lane from q.lanes) ≡ some item
  pub queue : q' ≡ record q {
    lanes = set_lane from (remove_first (has_task task_id) (lane from q.lanes)) q.lanes;
  }

not_foreign :
    (tenant : Option String) (item : Item) → is_foreign tenant item ≡ false → OwnedBy tenant item
not_foreign none item h = tt
not_foreign (some u) item h = ground (arith, eq_iff u "", eq_iff item.tenant_id u)

remove_from_cases :
    (task_id : String) (tenant : Option String) (q : ExecutionQueue) (ls : List Lane)
    → (remove_from task_id tenant q ls ≡ (q, none))
      ⊎ ((q' : ExecutionQueue) × (item : Item) × (remove_from task_id tenant q ls ≡ (q', some item))
          × Removed task_id tenant q q' item)
unfolding remove_from
remove_from_cases task_id tenant q [] = inl refl
remove_from_cases task_id tenant q (l ∷ ls) =
    elim (Option-cases (find (has_task task_id) (lane l q.lanes))) [
      | inl e ↦ rw (e, remove_from) (remove_from_cases task_id tenant q ls)
      | inr (item, e) ↦ elim (Bool-cases (is_foreign tenant item)) [
        | inl foreign ↦ inl (rw (e, remove_from, foreign))
        | inr own ↦ inr (
          _,
          item,
          rw (e, remove_from, own),
          record {
            wanted =
                (eq_iff item.request.task_id task_id).0
                  (find-passes (has_task task_id) (lane l q.lanes) item e);
            own = not_foreign tenant item own;
            from = l;
            held = e;
            queue = refl;
          },
        )
      ]
    ]

-- `remove` returns nothing and leaves the queue as it is, or it returns an item with the given
-- task, of the given tenant where one is named that is not empty, and takes that item out of its
-- lane and no other.
pub remove_cases :
    (q : ExecutionQueue) (task_id : String) (tenant : Option String)
    → (remove q task_id tenant ≡ (q, none))
      ⊎ ((q' : ExecutionQueue) × (item : Item) × (remove q task_id tenant ≡ (q', some item))
          × Removed task_id tenant q q' item
          × ((p : Item → Bool) → total p q.lanes ≡ total p q'.lanes + (if p item then 1 else 0)))
unfolding remove
remove_cases q task_id tenant = elim (remove_from_cases task_id tenant q lane_order) [
  | inl e ↦ inl e
  | inr (q', item, e, r) ↦ inr (
    q',
    item,
    e,
    r,
    λ p. rw (ap (λ x. x.lanes) r.queue) (
        total-set_lane p r.from _ q.lanes (if p item then 1 else 0)
          (count-remove_first (has_task task_id) p (lane r.from q.lanes) item r.held)),
  )
]

pub remove-Shrinks :
    (q : ExecutionQueue) (task_id : String) (tenant : Option String)
    → Shrinks q (remove q task_id tenant).0
remove-Shrinks q task_id tenant = elim (remove_cases q task_id tenant) [
  | inl e ↦ rw e (Shrinks-refl q)
  | inr (q', item, e, r, _) ↦
      rw (e, r.queue)
        (lane-Shrinks q q.last_served_tenant r.from _
          (λ p. count-remove_first-le (has_task task_id) p (lane r.from q.lanes)))
]
