-- ===== src/Scheduler/Queue/Aging.antt =====
-- Pruning and aging in apps/desktop-agent/src/scheduler/execution-queue.ts.
use nexus_os_ai_workspace.Base.{
  ℕ, ◌+◌, ◌<◌, String, ◌≡◌, refl, Bool, false, not, Option, none, some, List, [], ◌∷◌, ◌++◌, map,
  count, filter, arith, All, All-append, count-append, count-filter-le,
}
use nexus_os_ai_workspace.Scheduler.Items.{Item}
use nexus_os_ai_workspace.Scheduler.Policies.{should_promote_for_aging}
use nexus_os_ai_workspace.Scheduler.Queue.Bounds.{Shrinks, counted, ordinary}
use nexus_os_ai_workspace.Scheduler.Queue.{
  ExecutionQueue, total, is_expired, is_current, prune_expired, promoted, apply_aging,
}

pub prune_expired-Shrinks : (q : ExecutionQueue) (now : ℕ) → Shrinks q (prune_expired q now).0
unfolding prune_expired
prune_expired-Shrinks q now = record {
  same_capacity = refl;
  same_quota = refl;
  fewer = λ k. omega (
    arith,
    count-filter-le (is_current now) (counted k) q.lanes.critical_lane,
    count-filter-le (is_current now) (counted k) q.lanes.interactive_lane,
    count-filter-le (is_current now) (counted k) q.lanes.normal_lane,
    count-filter-le (is_current now) (counted k) q.lanes.retry_lane,
    count-filter-le (is_current now) (counted k) q.lanes.background_lane,
  );
  fewer_ordinary = λ k. omega (
    arith,
    count-filter-le (is_current now) (counted k) q.lanes.interactive_lane,
    count-filter-le (is_current now) (counted k) q.lanes.normal_lane,
    count-filter-le (is_current now) (counted k) q.lanes.retry_lane,
    count-filter-le (is_current now) (counted k) q.lanes.background_lane,
  );
}

-- Aging moves items, and a test that does not look at the lane counts as many as before.
count-promoted :
    (p q : Item → Bool) (xs : List Item)
    → ((x : Item) → p (promoted x) ≡ p x)
    → count p (map promoted (filter q xs)) + count p (filter (λ x. not (q x)) xs) ≡ count p xs
count-promoted p q [] h = omega arith
count-promoted p q (x ∷ xs) h = ground (arith, h x, count-promoted p q xs h)

counted-promoted : (k : Option String) (x : Item) → counted k (promoted x) ≡ counted k x
counted-promoted none x = refl
counted-promoted (some t) x = refl

-- Aging loses no item of any tenant and adds none, in all and outside the critical lane.
apply_aging-total :
    (q : ExecutionQueue) (now : ℕ) (k : Option String)
    → (total (counted k) (apply_aging q now).lanes ≡ total (counted k) q.lanes)
      × (ordinary (counted k) (apply_aging q now).lanes ≡ ordinary (counted k) q.lanes)
unfolding apply_aging
apply_aging-total q now k =
    let aged = λ (item : Item). should_promote_for_aging q.aging_threshold_ms item now in
    let moved = count-promoted (counted k) aged q.lanes.normal_lane (counted-promoted k) in
    let joined =
      count-append (counted k) q.lanes.interactive_lane
        (map promoted (filter aged q.lanes.normal_lane)) in
    (omega (arith, moved, joined), omega (arith, moved, joined))

pub apply_aging-Shrinks : (q : ExecutionQueue) (now : ℕ) → Shrinks q (apply_aging q now)
unfolding apply_aging
apply_aging-Shrinks q now = record {
  same_capacity = refl;
  same_quota = refl;
  fewer = λ k. omega (arith, (apply_aging-total q now k).0);
  fewer_ordinary = λ k. omega (arith, (apply_aging-total q now k).1);
}

All-rejected :
    (d : Item → Bool) (xs : List Item) → All (λ x. d x ≡ false) (filter (λ x. not (d x)) xs)
All-rejected d [] = tt
All-rejected d (x ∷ xs) = ground (arith, All-rejected d xs)

-- After aging the policy would promote no item of the normal lane.
pub apply_aging-young :
    (q : ExecutionQueue) (now : ℕ)
    → All
        (λ item. should_promote_for_aging q.aging_threshold_ms item now ≡ false)
        (apply_aging q now).lanes.normal_lane
unfolding apply_aging
apply_aging-young q now =
    All-rejected (λ item. should_promote_for_aging q.aging_threshold_ms item now)
      q.lanes.normal_lane

count-split :
    (p d : Item → Bool) (xs : List Item)
    → count p (filter (λ x. not (d x)) xs) + count p (filter d xs) ≡ count p xs
count-split p d [] = omega arith
count-split p d (x ∷ xs) = ground (arith, count-split p d xs)

All-expired :
    (now : ℕ) (xs : List Item) → All (λ x. x.expires_at < now) (filter (is_expired now) xs)
All-expired now [] = tt
All-expired now (x ∷ xs) = ground (arith, All-expired now xs)

none_expired : (now : ℕ) (xs : List Item) → count (is_expired now) (filter (is_current now) xs) ≡ 0
none_expired now [] = refl
none_expired now (x ∷ xs) = ground (arith, none_expired now xs)

-- Pruning splits the queue: what it returns has expired, what it keeps has not, and together they
-- are the items that the queue held, each as often.
pub prune_expired-split :
    (q : ExecutionQueue) (now : ℕ)
    → let (q', gone) = prune_expired q now in
      All (λ item. item.expires_at < now) gone
      × (total (is_expired now) q'.lanes ≡ 0)
      × ((p : Item → Bool) → total p q'.lanes + count p gone ≡ total p q.lanes)
unfolding prune_expired
prune_expired-split q now =
    let a = q.lanes.critical_lane in
    let b = q.lanes.interactive_lane in
    let c = q.lanes.normal_lane in
    let d = q.lanes.retry_lane in
    let e = q.lanes.background_lane in
    let gone = λ (xs : List Item). filter (is_expired now) xs in
    let Old = λ (x : Item). x.expires_at < now in
    (
      All-append Old (gone a) _ (All-expired now a) (
          All-append Old (gone b) _ (All-expired now b) (
            All-append Old (gone c) _ (All-expired now c)
              (All-append Old (gone d) _ (All-expired now d) (All-expired now e)))),
      omega (
        arith,
        none_expired now a,
        none_expired now b,
        none_expired now c,
        none_expired now d,
        none_expired now e,
      ),
      λ p. omega (
        arith,
        count-split p (is_expired now) a,
        count-split p (is_expired now) b,
        count-split p (is_expired now) c,
        count-split p (is_expired now) d,
        count-split p (is_expired now) e,
        count-append p (gone a) (gone b ++ (gone c ++ (gone d ++ gone e))),
        count-append p (gone b) (gone c ++ (gone d ++ gone e)),
        count-append p (gone c) (gone d ++ gone e),
        count-append p (gone d) (gone e),
      ),
    )
