-- ===== src/Scheduler/Queue/Fairness.antt =====
-- Fairness between tenants in a lane of apps/desktop-agent/src/scheduler/execution-queue.ts.
use nexus_os_ai_workspace.Base.{
  ℕ, String, ◌≡◌, ◌≢◌, refl, ap, Option, none, some, List, [], ◌∷◌, inl, inr, arith, get_elem?,
}
use nexus_os_ai_workspace.Scheduler.Items.{
  Lane, critical, interactive, normal, retry, background, Item,
}
use nexus_os_ai_workspace.Scheduler.Queue.RoundRobin.{HasOther, round_robin-rotates}
use nexus_os_ai_workspace.Scheduler.Queue.Service.{picks}
use nexus_os_ai_workspace.Scheduler.Queue.{
  ExecutionQueue, Lanes, dequeue_from, lane, set_lane, lane_order, served_index, dequeue,
}

-- In a lane that rotates, what is served is not the last tenant's, if another tenant has an item.
served_index-rotates :
    (now : ℕ) (q : ExecutionQueue) (l : Lane) (last : String) (i : ℕ) (item : Item)
    → l ≢ retry
    → lane l q.last_served_tenant ≡ some last
    → last ≢ ""
    → HasOther last (lane l q.lanes)
    → served_index now q l ≡ some i
    → get_elem? (lane l q.lanes) i ≡ some item
    → item.tenant_id ≢ last
unfolding served_index
served_index-rotates now q critical last i item r e n o s g =
    round_robin-rotates last q.lanes.critical_lane i item n o (rw e at s) g
served_index-rotates now q interactive last i item r e n o s g =
    round_robin-rotates last q.lanes.interactive_lane i item n o (rw e at s) g
served_index-rotates now q normal last i item r e n o s g =
    round_robin-rotates last q.lanes.normal_lane i item n o (rw e at s) g
served_index-rotates now q background last i item r e n o s g =
    round_robin-rotates last q.lanes.background_lane i item n o (rw e at s) g
served_index-rotates now q retry last i item r e n o s g = absurd (r refl)

lane-set_lane {ℓ} : {A : Type ℓ} (l : Lane) (a : A) (ls : Lanes A) → lane l (set_lane l a ls) ≡ a
lane-set_lane critical a ls = refl
lane-set_lane interactive a ls = refl
lane-set_lane normal a ls = refl
lane-set_lane retry a ls = refl
lane-set_lane background a ls = refl

-- The first lane that has an item to serve.
abbrev pub serving_lane : ℕ → ExecutionQueue → List Lane → Option Lane
serving_lane now q [] = none
serving_lane now q (l ∷ ls) = elim (served_index now q l) [
  | none ↦ serving_lane now q ls
  | some i ↦ some l
]

-- What `dequeue` does in that lane.
record Takes (now : ℕ) (q q' : ExecutionQueue) (item : Item) (l : Lane) : Type 0 where
  index : ℕ
  chosen : served_index now q l ≡ some index
  read : get_elem? (lane l q.lanes) index ≡ some item
  noted : lane l q'.last_served_tenant ≡ some item.tenant_id

dequeue_from-Takes :
    (now : ℕ) (q q' : ExecutionQueue) (item : Item) (l : Lane) (ls : List Lane)
    → dequeue_from now q ls ≡ (q', some item)
    → serving_lane now q ls ≡ some l
    → Takes now q q' item l
unfolding dequeue_from
dequeue_from-Takes now q q' item l [] h e = cc
dequeue_from-Takes now q q' item l (k ∷ ks) h e = elim (picks now q k) [
  | inl (none_here, _, _) ↦
      dequeue_from-Takes now q q' item l ks (rw (none_here, dequeue_from) at h)
        (rw (none_here, serving_lane) at e)
  | inr (i, x, rest, chosen, g, s, _) ↦
      let taken = rw (chosen, dequeue_from, s) at h in
      let here : k ≡ l = ground arith in
      let same : x ≡ item = ground arith in
      rw (← here, ← same)
        (record {
          index = i;
          chosen = chosen;
          read = g;
          noted =
              rw (← ap (λ r. r.0) taken) (lane-set_lane k (some x.tenant_id) q.last_served_tenant);
        })
]

-- Two items served one after the other from the same lane, other than RETRY, belong to different
-- tenants, if the first one's tenant has a name that is not empty and another tenant has an item in
-- the lane after the first was taken.
pub dequeue-rotates :
    (now later : ℕ) (q q₁ q₂ : ExecutionQueue) (a b : Item) (l : Lane)
    → dequeue now q ≡ (q₁, some a)
    → dequeue later q₁ ≡ (q₂, some b)
    → serving_lane now q lane_order ≡ some l
    → serving_lane later q₁ lane_order ≡ some l
    → l ≢ retry
    → a.tenant_id ≢ ""
    → HasOther a.tenant_id (lane l q₁.lanes)
    → b.tenant_id ≢ a.tenant_id
unfolding dequeue
dequeue-rotates now later q q₁ q₂ a b l first second in_first in_second r n other =
    let s = dequeue_from-Takes now q q₁ a l lane_order first in_first in
    let t = dequeue_from-Takes later q₁ q₂ b l lane_order second in_second in
    served_index-rotates later q₁ l a.tenant_id t.index b r s.noted n other t.chosen t.read
