-- ===== src/Telemetry/Spool.antt =====
-- The telemetry spool: class `TelemetrySpool` of apps/desktop-agent/src/telemetry/telemetry-spool.ts.
-- The redaction filter and the length of `JSON.stringify(item)` are parameters. Whether the write to
-- disk succeeds (or none is configured) is an argument, `written`, of each call that persists.
use nexus_os_ai_workspace.Base.{
  ℕ, ◌*◌, String, Bool, true, false, not, List, [], ◌∷◌, ◌++◌, if◌then◌else◌, leb, ltb, min, length,
  take, drop, any, remove_first, nonempty,
}
use nexus_os_ai_workspace.Telemetry.Backpressure.{
  Controller, EventPriority, critical, non_critical, is_critical, is_critical_schema_id,
  set_critical_spool_full, record_item_added, record_item_evicted, reset_spool_usage,
}

pub data ItemType : Type 0 where
  metric trace event diagnostic : ItemType

pub record TelemetryItem {ℓ} (A : Type ℓ) : Type ℓ where
  pub item_id : String
  pub timestamp : String
  pub kind : ItemType
  pub name : String
  pub attributes : A
  pub priority : EventPriority

pub record EventEnvelope {ℓ} (A : Type ℓ) : Type ℓ where
  pub event_id : String
  pub occurred_at : String
  pub schema_id : String
  pub payload : A

pub record Spool {ℓ} (A : Type ℓ) : Type ℓ where
  pub items : List (TelemetryItem A)
  pub controller : Controller
  pub max_queue_length : ℕ

-- The parts of the filter and of the JSON printer that the spool calls.
pub record Filter {ℓ} (A : Type ℓ) : Type ℓ where
  pub redact_string : String → String
  pub redact_object : A → A
  pub json_length : TelemetryItem A → ℕ

module _ {ℓ} {A : Type ℓ} where
  abbrev pub hard_max_capacity : Spool A → ℕ
  hard_max_capacity s = s.max_queue_length * 2

  abbrev pub is_critical_item : TelemetryItem A → Bool
  is_critical_item i = is_critical i.priority

  abbrev pub is_droppable : TelemetryItem A → Bool
  is_droppable i = not (is_critical i.priority)

  -- A failed write raises the signal that the spool is full.
  unfoldable pub persist : (written : Bool) → Spool A → Spool A
  persist true s = s
  persist false s = record s { controller = set_critical_spool_full true s.controller }

  unfoldable pub sanitize : Filter A → TelemetryItem A → TelemetryItem A
  sanitize f i = record i {
    name = f.redact_string i.name;
    attributes = f.redact_object i.attributes;
  }

  -- The end of `enqueueItem`: append, count and persist.
  unfoldable pub append_item : Filter A → (written : Bool) → TelemetryItem A → Spool A → Spool A
  unfolding persist record_item_added
  append_item f written i s = persist written (record s {
    items = s.items ++ i ∷ [];
    controller = record_item_added i.priority (f.json_length i) s.controller;
  })

  unfoldable pub evict_one : Spool A → Spool A
  unfolding record_item_evicted
  evict_one s = record s {
    items = remove_first is_droppable s.items;
    controller = record_item_evicted 1 s.controller;
  }

  -- What a full spool does with an item.
  unfoldable pub enqueue_full :
      Filter A → (written : Bool) → TelemetryItem A → Spool A → Spool A × Bool
  unfolding append_item evict_one record_item_evicted
  enqueue_full f written i s =
      if is_critical_item i
      then if any is_droppable s.items
        then (append_item f written i (evict_one s), true)
        else if leb (hard_max_capacity s) (length s.items)
        then (record s { controller = set_critical_spool_full true s.controller }, false)
        else (append_item f written i s, true)
      else (record s { controller = record_item_evicted 1 s.controller }, false)

  unfoldable pub enqueue_item :
      Filter A → (written : Bool) → Spool A → TelemetryItem A → Spool A × Bool
  unfolding enqueue_full append_item sanitize
  enqueue_item f written s item =
      let i = sanitize f item in
      if leb s.max_queue_length (length s.items)
      then enqueue_full f written i s
      else (append_item f written i s, true)

  unfoldable pub enqueue_event_envelope :
      Filter A → (written : Bool) → Spool A → EventEnvelope A → Spool A × Bool
  unfolding enqueue_item
  enqueue_event_envelope f written s e = enqueue_item f written s (record {
    item_id = e.event_id;
    timestamp = e.occurred_at;
    kind = event;
    name = e.schema_id;
    attributes = e.payload;
    priority = if is_critical_schema_id e.schema_id then critical else non_critical;
  })

  -- The signal is lowered when the rest lies under the hard capacity, before the write.
  unfoldable pub pop_batch :
      (written : Bool) → Spool A → (max_items : ℕ) → Spool A × List (TelemetryItem A)
  unfolding persist
  pop_batch written s max_items =
      let n = min max_items (length s.items) in
      let rest = record s { items = drop n s.items } in
      let lowered = record rest { controller = set_critical_spool_full false rest.controller } in
      if leb (length s.items) 0 then (s, []) else (
        persist written (if ltb (length rest.items) (hard_max_capacity s) then lowered else rest),
        take n s.items,
      )

  unfoldable pub clear_spool : (written : Bool) → Spool A → Spool A
  unfolding persist reset_spool_usage
  clear_spool written s =
      persist written (record s { items = []; controller = reset_spool_usage s.controller })

  -- The loop of `loadSpoolFromStorage` over the items that the file held. A priority is never empty.
  unfoldable pub load_items : Filter A → Spool A → List (TelemetryItem A) → Spool A
  unfolding record_item_added
  load_items f s [] = s
  load_items f s (i ∷ is) =
      let added = record s {
        items = s.items ++ i ∷ [];
        controller = record_item_added i.priority (f.json_length i) s.controller;
      } in
      load_items f (if nonempty i.item_id then added else s) is
