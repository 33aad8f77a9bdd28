-- ===== src/Examples/Stores.antt =====
-- The notification queue and the telemetry spool at concrete items.
use mathlib.Core.List.Memᴰ
use nexus_os_ai_workspace.Base.{
  ℕ, ◌-◌, ◌≤◌, String, ◌≡◌, refl, true, false, not, Option, none, some, List, [], ◌∷◌, ◌++◌, any,
  filter, length, if◌then◌else◌, arith, utf16_length,
}
use nexus_os_ai_workspace.Notifications.{
  NotificationItem, NotificationQueue, Writes, normal, is_minor, hard_capacity, has_expired,
  enqueue, rejected,
}
use nexus_os_ai_workspace.Notifications
use nexus_os_ai_workspace.Notifications.Retained.{
  enqueue-keeps_urgent, enqueue-rejects_major, Retained,
}
use nexus_os_ai_workspace.Telemetry.Backpressure.{
  Controller, critical, non_critical, set_critical_spool_full,
}
use nexus_os_ai_workspace.Telemetry.Spool.{
  TelemetryItem, Spool, Filter, metric, enqueue_item, sanitize, hard_max_capacity, is_droppable,
}
use nexus_os_ai_workspace.Telemetry.Retention.{
  critical_items, enqueue_item-critical, enqueue_item-refuses_critical,
}
use nexus_os_ai_workspace.Telemetry.Counters.{enqueue_all, enqueue_all-undercounts}

abbrev dates : String → Option ℕ
dates s = some (utf16_length s)

abbrev alarm : NotificationItem String
alarm = record {
  id = "n1";
  timestamp = "";
  priority = Notifications.critical;
  coalesce_key = some "alarm";
  expires_at = none;
  is_read = false;
  body = "intrusion";
}

abbrev again : NotificationItem String
again = record alarm { id = "n2" }

abbrev full_queue : NotificationQueue String
full_queue = record {
  items = alarm ∷ record alarm { id = "n3" } ∷ [];
  total_delivered = 2;
  expired_count = 0;
  coalesced_count = 0;
  is_queue_full = false;
  max_capacity = 1;
}

abbrev writes : Writes
writes = record { purge_written = true; store_written = false }

enqueue-keeps_urgent_example :
    Retained again alarm (enqueue dates 5 writes full_queue again).0.items
enqueue-keeps_urgent_example =
    enqueue-keeps_urgent dates 5 writes full_queue again alarm (Memᴰ.head refl) refl tt

abbrev other : NotificationItem String
other = record alarm { id = "n4"; coalesce_key = none }

other_rejected : (enqueue dates 5 writes full_queue other).1 ≡ rejected
unfolding enqueue has_expired
other_rejected = refl

enqueue-rejects_major_example :
    let live =
      filter (λ (i : NotificationItem String). not (has_expired dates 5 i)) full_queue.items in
    (hard_capacity full_queue ≤ length live)
    × (any (λ (i : NotificationItem String). is_minor i.priority) live ≡ false)
enqueue-rejects_major_example =
    enqueue-rejects_major dates 5 writes full_queue other refl other_rejected

abbrev plain : Filter String
plain = record { redact_string = λ s. s; redact_object = λ s. "[REDACTED]"; json_length = λ i. 100 }

abbrev controller : Controller
controller = record {
  total_items_spooled = 2;
  critical_items_count = 1;
  non_critical_items_count = 1;
  evicted_items_count = 0;
  spool_used_bytes = 200;
  is_critical_full = false;
  max_capacity_bytes = 1000;
  warning_threshold_bytes = 800;
  sampling_rate_non_critical = 1000;
}

abbrev breach : TelemetryItem String
breach = record {
  item_id = "i1";
  timestamp = "";
  kind = metric;
  name = "breach";
  attributes = "x";
  priority = critical;
}

abbrev beat : TelemetryItem String
beat = record breach { item_id = "i2"; priority = non_critical }

abbrev mixed : Spool String
mixed = record { items = beat ∷ breach ∷ []; controller = controller; max_queue_length = 2 }

abbrev saturated : Spool String
saturated = record { items = breach ∷ breach ∷ []; controller = controller; max_queue_length = 1 }

enqueue_item-critical_example :
    let (s', accepted) = enqueue_item plain true mixed breach in
    critical_items s'.items
    ≡ critical_items mixed.items
      ++ (if accepted then critical_items (sanitize plain breach ∷ []) else [])
enqueue_item-critical_example = enqueue_item-critical plain true mixed breach

breach_refused : (enqueue_item plain true saturated breach).1 ≡ false
unfolding enqueue_item
breach_refused = refl

enqueue_item-refuses_critical_example :
    ((hard_max_capacity saturated ≤ length saturated.items)
      × (any is_droppable saturated.items ≡ false))
    × ((enqueue_item plain true saturated breach).0
        ≡ record saturated { controller = set_critical_spool_full true saturated.controller })
enqueue_item-refuses_critical_example =
    enqueue_item-refuses_critical plain true saturated breach refl breach_refused

enqueue_all-undercounts_example :
    let s' = enqueue_all plain true mixed (beat ∷ beat ∷ []) in
    (s'.items ≡ mixed.items)
    × (s'.controller.non_critical_items_count ≡ mixed.controller.non_critical_items_count - 2)
enqueue_all-undercounts_example =
    enqueue_all-undercounts plain true mixed (beat ∷ beat ∷ []) (refl, (refl, tt)) (omega arith)

abbrev idle_spool : Spool String
idle_spool = record { items = []; controller = controller; max_queue_length = 2 }

abbrev persisted : List (TelemetryItem String)
persisted = breach ∷ record beat { item_id = "" } ∷ beat ∷ []
