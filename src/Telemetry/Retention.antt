-- ===== src/Telemetry/Retention.antt =====
-- What the spool of apps/desktop-agent/src/telemetry/telemetry-spool.ts retains.
use nexus_os_ai_workspace.Base.{
  suc, ◌≤◌, ◌≡◌, refl, ap, ◌∙◌, Bool, true, false, List, [], ◌∷◌, ◌++◌, if◌then◌else◌, length,
  filter, any, remove_first, arith, length-append, append-nil,
}
use nexus_os_ai_workspace.Telemetry.Backpressure.{
  critical, is_critical, record_item_added, set_critical_spool_full,
}
use nexus_os_ai_workspace.Telemetry.Spool.{
  TelemetryItem, Spool, Filter, hard_max_capacity, is_critical_item, is_droppable, sanitize,
  enqueue_item, enqueue_full, append_item, evict_one, persist,
}

module _ {ℓ} {A : Type ℓ} where
  abbrev pub critical_items : List (TelemetryItem A) → List (TelemetryItem A)
  critical_items = filter is_critical_item

  critical-append :
      (xs ys : List (TelemetryItem A))
      → critical_items (xs ++ ys) ≡ critical_items xs ++ critical_items ys
  critical-append [] ys = refl
  critical-append (x ∷ xs) ys = ground (arith, critical-append xs ys)

  -- Evicting the oldest droppable item leaves the critical ones alone.
  critical-remove_first :
      (xs : List (TelemetryItem A))
      → critical_items (remove_first is_droppable xs) ≡ critical_items xs
  critical-remove_first [] = refl
  critical-remove_first (x ∷ xs) = ground (arith, critical-remove_first xs)

  length-evict :
      (xs : List (TelemetryItem A))
      → any is_droppable xs ≡ true
      → suc (length (remove_first is_droppable xs)) ≡ length xs
  length-evict [] h = cc
  length-evict (x ∷ xs) h = ground (arith, length-evict xs)

  items-persist : (written : Bool) (s : Spool A) → (persist written s).items ≡ s.items
  unfolding persist
  items-persist true s = refl
  items-persist false s = refl

  items-append_item :
      (f : Filter A) (written : Bool) (i : TelemetryItem A) (s : Spool A)
      → (append_item f written i s).items ≡ s.items ++ i ∷ []
  unfolding append_item
  items-append_item f written i s = items-persist written (record s {
    items = s.items ++ i ∷ [];
    controller = record_item_added i.priority (f.json_length i) s.controller;
  })

  critical-append_item :
      (f : Filter A) (written : Bool) (i : TelemetryItem A) (s : Spool A)
      → critical_items (append_item f written i s).items
        ≡ critical_items s.items ++ critical_items (i ∷ [])
  critical-append_item f written i s =
      ap critical_items (items-append_item f written i s) ∙ critical-append s.items (i ∷ [])

  critical-enqueue_full :
      (f : Filter A) (written : Bool) (i : TelemetryItem A) (s : Spool A)
      → let (s', accepted) = enqueue_full f written i s in
        critical_items s'.items
        ≡ critical_items s.items ++ (if accepted then critical_items (i ∷ []) else [])
  unfolding enqueue_full evict_one
  critical-enqueue_full f written i s = ground (
    arith,
    critical-append_item f written i s,
    critical-append_item f written i (evict_one s),
    critical-remove_first s.items,
    append-nil (critical_items s.items),
  )

  -- Enqueueing never drops a critical item: afterwards the spool holds the critical items that it
  -- held, in their order, followed by the new one if that is critical and was accepted.
  pub enqueue_item-critical :
      (f : Filter A) (written : Bool) (s : Spool A) (item : TelemetryItem A)
      → let (s', accepted) = enqueue_item f written s item in
        critical_items s'.items
        ≡ critical_items s.items ++ (if accepted then critical_items (sanitize f item ∷ []) else [])
  unfolding enqueue_item
  enqueue_item-critical f written s item = ground (
    arith,
    critical-enqueue_full f written (sanitize f item) s,
    critical-append_item f written (sanitize f item) s,
  )

  -- When a critical item is refused, the spool holds at least twice its configured length, every
  -- item in it is critical, the items stay as they are and the signal that it is full is up.
  pub enqueue_item-refuses_critical :
      (f : Filter A) (written : Bool) (s : Spool A) (item : TelemetryItem A)
      → item.priority ≡ critical
      → (enqueue_item f written s item).1 ≡ false
      → ((hard_max_capacity s ≤ length s.items) × (any is_droppable s.items ≡ false))
        × ((enqueue_item f written s item).0
            ≡ record s { controller = set_critical_spool_full true s.controller })
  unfolding enqueue_item enqueue_full sanitize
  enqueue_item-refuses_critical f written s item h refused = ground (arith, ap is_critical h)

  -- A spool that holds at most its hard capacity, twice its configured length, holds at most that
  -- after an item was enqueued or refused.
  pub enqueue_item-bounded :
      (f : Filter A) (written : Bool) (s : Spool A) (item : TelemetryItem A)
      → length s.items ≤ hard_max_capacity s
      → length (enqueue_item f written s item).0.items ≤ hard_max_capacity s
  unfolding enqueue_item enqueue_full evict_one
  enqueue_item-bounded f written s item h = ground (
    arith,
    ap length (items-append_item f written (sanitize f item) s),
    ap length (items-append_item f written (sanitize f item) (evict_one s)),
    length-append s.items (sanitize f item ∷ []),
    length-append (remove_first is_droppable s.items) (sanitize f item ∷ []),
    length-evict s.items,
  )
