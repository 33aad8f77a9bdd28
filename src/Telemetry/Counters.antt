-- ===== src/Telemetry/Counters.antt =====
-- The counters that apps/desktop-agent/src/telemetry/telemetry-spool.ts lets the backpressure
-- controller keep.
use nexus_os_ai_workspace.Base.{
  ◌-◌, ◌≤◌, ◌≡◌, refl, ◌∙◌, List, [], ◌∷◌, All, length, arith, ap, Bool,
}
use nexus_os_ai_workspace.Telemetry.Backpressure.{non_critical, is_critical, record_item_evicted}
use nexus_os_ai_workspace.Telemetry.Spool.{
  Spool, Filter, TelemetryItem, enqueue_item, enqueue_full, sanitize,
}

enqueue_item-refuses {ℓ} :
    {A : Type ℓ} (f : Filter A) (written : Bool) (s : Spool A) (item : TelemetryItem A)
    → item.priority ≡ non_critical
    → s.max_queue_length ≤ length s.items
    → let s' = (enqueue_item f written s item).0 in
      (s'.items ≡ s.items)
      × (s'.max_queue_length ≡ s.max_queue_length)
      × (s'.controller.non_critical_items_count ≡ s.controller.non_critical_items_count - 1)
unfolding enqueue_item enqueue_full sanitize record_item_evicted
enqueue_item-refuses f written s item h full = ground (arith, ap is_critical h)

-- One call of `enqueueItem` after another.
unfoldable pub enqueue_all {ℓ} :
    {A : Type ℓ} → Filter A → (written : Bool) → Spool A → List (TelemetryItem A) → Spool A
enqueue_all f written s [] = s
enqueue_all f written s (i ∷ is) = enqueue_all f written (enqueue_item f written s i).0 is

-- However many non-critical items meet a spool at its configured length, they leave its items as
-- they are, and yet each lowers the number of non-critical items that the controller reports by one,
-- down to zero.
pub enqueue_all-undercounts {ℓ} :
    {A : Type ℓ} (f : Filter A) (written : Bool) (s : Spool A) (items : List (TelemetryItem A))
    → All (λ i. i.priority ≡ non_critical) items
    → s.max_queue_length ≤ length s.items
    → let s' = enqueue_all f written s items in
      (s'.items ≡ s.items)
      × (s'.controller.non_critical_items_count
          ≡ s.controller.non_critical_items_count - length items)
unfolding enqueue_all
enqueue_all-undercounts f written s [] minor full = (refl, omega arith)
enqueue_all-undercounts f written s (i ∷ is) minor full =
    let one = (enqueue_item f written s i).0 in
    let (same, limit, lower) = enqueue_item-refuses f written s i minor.0 full in
    let (kept, lowered) =
      enqueue_all-undercounts f written one is minor.1 (rw (limit, same) full) in
    (kept ∙ same, omega (arith, lower, lowered))
