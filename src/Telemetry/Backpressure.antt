-- ===== src/Telemetry/Backpressure.antt =====
-- The backpressure controller: apps/desktop-agent/src/telemetry/backpressure-controller.ts. Random
-- draws and sampling rates are given in thousandths.
use nexus_os_ai_workspace.Base.{
  ℕ, ◌+◌, ◌-◌, String, Bool, true, false, not, ◌&&◌, ◌||◌, if◌then◌else◌, leb, ltb, ◌==◌,
}
use text.Mathlib.Text.{starts_with}

pub data EventPriority : Type 0 where
  critical non_critical : EventPriority

pub data LogLevel : Type 0 where
  debug info warn error fatal : LogLevel

pub record Controller : Type 0 where
  pub total_items_spooled : ℕ
  pub critical_items_count : ℕ
  pub non_critical_items_count : ℕ
  pub evicted_items_count : ℕ
  pub spool_used_bytes : ℕ
  pub is_critical_full : Bool
  pub max_capacity_bytes : ℕ
  pub warning_threshold_bytes : ℕ
  pub sampling_rate_non_critical : ℕ

abbrev pub is_critical : EventPriority → Bool
is_critical critical = true
is_critical non_critical = false

unfoldable pub is_backpressure_active : Controller → Bool
is_backpressure_active c = c.is_critical_full || leb c.warning_threshold_bytes c.spool_used_bytes

abbrev pub set_critical_spool_full : Bool → Controller → Controller
set_critical_spool_full is_full c = record c { is_critical_full = is_full }

unfoldable pub is_critical_schema_id : String → Bool
is_critical_schema_id schema_id =
    if schema_id == ""
    then false
    else if not (starts_with schema_id "nexusos.events.")
    then false
    else starts_with schema_id "nexusos.events.security"
      || starts_with schema_id "nexusos.events.agent.state"
      || starts_with schema_id "nexusos.events.policy"
      || starts_with schema_id "nexusos.events.config"
      || starts_with schema_id "nexusos.events.recovery"

abbrev is_severe : LogLevel → Bool
is_severe fatal = true
is_severe error = true
is_severe _ = false

abbrev is_debug : LogLevel → Bool
is_debug debug = true
is_debug _ = false

abbrev is_info : LogLevel → Bool
is_info info = true
is_info _ = false

-- `draw` is the number that `Math.random()` returns.
unfoldable pub should_sample_log : Controller → LogLevel → EventPriority → (draw : ℕ) → Bool
unfolding is_backpressure_active
should_sample_log c level priority draw =
    if is_critical priority || is_severe level
    then true
    else if is_backpressure_active c && is_debug level
    then ltb draw 100
    else if is_backpressure_active c && is_info level
    then ltb draw 500
    else ltb draw c.sampling_rate_non_critical

unfoldable pub record_item_added : EventPriority → ℕ → Controller → Controller
record_item_added critical bytes c = record c {
  total_items_spooled = c.total_items_spooled + 1;
  spool_used_bytes = c.spool_used_bytes + bytes;
  critical_items_count = c.critical_items_count + 1;
}
record_item_added non_critical bytes c = record c {
  total_items_spooled = c.total_items_spooled + 1;
  spool_used_bytes = c.spool_used_bytes + bytes;
  non_critical_items_count = c.non_critical_items_count + 1;
}

unfoldable pub record_item_evicted : ℕ → Controller → Controller
record_item_evicted n c = record c {
  evicted_items_count = c.evicted_items_count + n;
  non_critical_items_count =
      if leb n c.non_critical_items_count
      then c.non_critical_items_count - n
      else c.non_critical_items_count;
}

unfoldable pub reset_spool_usage : Controller → Controller
reset_spool_usage c = record c {
  total_items_spooled = 0;
  critical_items_count = 0;
  non_critical_items_count = 0;
  spool_used_bytes = 0;
  is_critical_full = false;
}
