-- ===== src/Scheduler/Queue/Service.antt =====
-- What `dequeue` and `peek` of apps/desktop-agent/src/scheduler/execution-queue.ts serve.
use nexus_os_ai_workspace.Base.{
  ℕ, ◌+◌, String, ◌≡◌, refl, sym, ap, ◌⊎◌, inl, inr, Bool, Option, none, some, List, [], ◌∷◌, ◌++◌,
  if◌then◌else◌, count, arith, Option-cases, All, get_elem?,
}
use nexus_os_ai_workspace.Scheduler.Items.{
  Lane, critical, interactive, normal, retry, background, Item,
}
use nexus_os_ai_workspace.Scheduler.Queue.Splice.{
  find_index, find_index-get, find_index-none, splice_at, splice_at-some, splice_at-count,
}
use nexus_os_ai_workspace.Scheduler.Queue.RoundRobin.{round_robin-serves}
use nexus_os_ai_workspace.Scheduler.Queue.Bounds.{total-set_lane}
use nexus_os_ai_workspace.Scheduler.Queue.{
  ExecutionQueue, lane, set_lane, total, lane_order, is_ready, served_index, pick, dequeue_from,
  dequeue, peek_from, peek, find_round_robin_index,
}

-- A lane has nothing to serve: it is empty, or for the retry lane no item is due.
abbrev pub Idle : ℕ → ExecutionQueue → Lane → Type 0
Idle now q critical = q.lanes.critical_lane ≡ []
Idle now q interactive = q.lanes.interactive_lane ≡ []
Idle now q normal = q.lanes.normal_lane ≡ []
Idle now q retry = count (is_ready now) q.lanes.retry_lane ≡ 0
Idle now q background = q.lanes.background_lane ≡ []

-- A lane serves an item that it holds, or is idle.
abbrev Serves : ℕ → ExecutionQueue → Lane → Type 0
Serves now q l =
    ((served_index now q l ≡ none) × Idle now q l)
    ⊎ ((i : ℕ) × (item : Item) × (served_index now q l ≡ some i)
        × (get_elem? (lane l q.lanes) i ≡ some item))

fair_lane :
    (last : Option String) (items : List Item)
    → ((find_round_robin_index last items ≡ none) × (items ≡ []))
      ⊎ ((i : ℕ) × (item : Item) × (find_round_robin_index last items ≡ some i)
          × (get_elem? items i ≡ some item))
unfolding find_round_robin_index
fair_lane last [] = inl (refl, refl)
fair_lane last (x ∷ xs) = inr (round_robin-serves last x xs)

serves : (now : ℕ) (q : ExecutionQueue) (l : Lane) → Serves now q l
unfolding served_index
serves now q critical = fair_lane q.last_served_tenant.critical_lane q.lanes.critical_lane
serves now q interactive = fair_lane q.last_served_tenant.interactive_lane q.lanes.interactive_lane
serves now q normal = fair_lane q.last_served_tenant.normal_lane q.lanes.normal_lane
serves now q background = fair_lane q.last_served_tenant.background_lane q.lanes.background_lane
serves now q retry = elim (Option-cases (find_index (is_ready now) q.lanes.retry_lane)) [
  | inl e ↦ inl (e, find_index-none (is_ready now) q.lanes.retry_lane e)
  | inr (i, e) ↦
      let (item, g, _, _) = find_index-get (is_ready now) q.lanes.retry_lane e in
      inr (i, item, e, g)
]

-- The same for `pick`, which takes the item out.
abbrev pub Picks : ℕ → ExecutionQueue → Lane → Type 0
Picks now q l =
    ((served_index now q l ≡ none) × (pick now q l ≡ none) × Idle now q l)
    ⊎ ((i : ℕ) × (item : Item) × (rest : List Item) × (served_index now q l ≡ some i)
        × (get_elem? (lane l q.lanes) i ≡ some item)
        × (splice_at i (lane l q.lanes) ≡ some (item, rest))
        × (pick now q l ≡ some (item, rest)))

pub picks : (now : ℕ) (q : ExecutionQueue) (l : Lane) → Picks now q l
unfolding pick
picks now q l = elim (serves now q l) [
  | inl (e, idle) ↦ inl (e, rw e, idle)
  | inr (i, item, e, g) ↦
      let (rest, s) = splice_at-some i (lane l q.lanes) g in inr (i, item, rest, e, g, s, rw (e, s))
]

peek_from-dequeue_from :
    (now : ℕ) (q : ExecutionQueue) (ls : List Lane) → peek_from now q ls ≡ (dequeue_from now q ls).1
unfolding peek_from dequeue_from
peek_from-dequeue_from now q [] = refl
peek_from-dequeue_from now q (l ∷ ls) = elim (picks now q l) [
  | inl (e, _, _) ↦ rw (e, peek_from, dequeue_from) (peek_from-dequeue_from now q ls)
  | inr (i, item, rest, e, g, s, _) ↦ rw (e, peek_from, g, dequeue_from, s)
]

-- `peek` shows the item that `dequeue` takes.
pub peek-dequeue : (now : ℕ) (q : ExecutionQueue) → peek now q ≡ (dequeue now q).1
unfolding peek dequeue
peek-dequeue now q = peek_from-dequeue_from now q lane_order

-- Where an item comes from: a lane `from`, with every lane before it idle.
pub record Served (now : ℕ) (q q' : ExecutionQueue) (item : Item) (ls : List Lane) : Type 0 where
  pub before : List Lane
  pub from : Lane
  pub after : List Lane
  pub order : ls ≡ before ++ from ∷ after
  pub idle : All (Idle now q) before
  pub index : ℕ
  pub rest : List Item
  pub chosen : served_index now q from ≡ some index
  pub taken : splice_at index (lane from q.lanes) ≡ some (item, rest)
  pub queue : q' ≡ record q {
    lanes = set_lane from rest q.lanes;
    last_served_tenant = set_lane from (some item.tenant_id) q.last_served_tenant;
  }

dequeue_from-Served :
    (now : ℕ) (q : ExecutionQueue) (ls : List Lane) {q' : ExecutionQueue} {item : Item}
    → dequeue_from now q ls ≡ (q', some item)
    → Served now q q' item ls
unfolding dequeue_from
dequeue_from-Served now q [] h = cc (ap (λ r. r.1) h)
dequeue_from-Served now q (l ∷ ls) {q'} {item} h = elim (picks now q l) [
  | inl (e, _, idle) ↦
      let s = dequeue_from-Served now q ls {q' = q'} {item = item} (rw (e, dequeue_from) at h) in
      record {
        before = l ∷ s.before;
        from = s.from;
        after = s.after;
        order = ap (◌∷◌ l) s.order;
        idle = (idle, s.idle);
        index = s.index;
        rest = s.rest;
        chosen = s.chosen;
        taken = s.taken;
        queue = s.queue;
      }
  | inr (i, x, rest, e, g, s, _) ↦
      let k = rw (e, dequeue_from, s) at h in
      let same : x ≡ item = ground arith in
      record {
        before = [];
        from = l;
        after = ls;
        order = refl;
        idle = tt;
        index = i;
        rest = rest;
        chosen = e;
        taken = rw (← same) s;
        queue = rw (← same) (sym (ap (λ r. r.0) k));
      }
]

-- Every item that is dequeued comes from a lane, and the lanes that go before it in the order
-- CRITICAL, INTERACTIVE, NORMAL, RETRY, BACKGROUND are empty (RETRY: nothing in it is due). The lane
-- loses the item at the index that is served, the tenant is noted, and all else stays.
pub dequeue-Served :
    (now : ℕ) (q : ExecutionQueue) {q' : ExecutionQueue} {item : Item}
    → dequeue now q ≡ (q', some item)
    → Served now q q' item lane_order
unfolding dequeue
dequeue-Served now q h = dequeue_from-Served now q lane_order h

dequeue_from-none :
    (now : ℕ) (q : ExecutionQueue) (ls : List Lane) {q' : ExecutionQueue}
    → dequeue_from now q ls ≡ (q', none)
    → (q' ≡ q) × All (Idle now q) ls
unfolding dequeue_from
dequeue_from-none now q [] h = (sym (ap (λ r. r.0) h), tt)
dequeue_from-none now q (l ∷ ls) {q'} h = elim (picks now q l) [
  | inl (e, _, idle) ↦
      let (same, rest) = dequeue_from-none now q ls {q' = q'} (rw (e, dequeue_from) at h) in
      (same, (idle, rest))
  | inr (i, x, rest, e, g, s, _) ↦ cc (ap (λ r. r.1) (rw (e, dequeue_from, s) at h))
]

-- `dequeue` returns nothing only when no lane has an item to serve, and then changes nothing.
pub dequeue-none :
    (now : ℕ) (q : ExecutionQueue) {q' : ExecutionQueue}
    → dequeue now q ≡ (q', none)
    → (q' ≡ q) × All (Idle now q) lane_order
unfolding dequeue
dequeue-none now q h = dequeue_from-none now q lane_order h

-- Dequeueing loses and duplicates nothing: of each kind of item the queue holds as many as before,
-- less the one that is returned.
pub dequeue-total :
    (now : ℕ) (q : ExecutionQueue) {q' : ExecutionQueue} {item : Item} (p : Item → Bool)
    → dequeue now q ≡ (q', some item)
    → total p q.lanes ≡ total p q'.lanes + (if p item then 1 else 0)
dequeue-total now q {q'} {item} p h =
    let s = dequeue-Served now q {q' = q'} {item = item} h in
    rw (ap (λ r. r.lanes) s.queue) (
      total-set_lane p s.from s.rest q.lanes (if p item then 1 else 0)
        (splice_at-count p s.index (lane s.from q.lanes) s.taken))
