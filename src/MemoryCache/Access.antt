-- ===== src/MemoryCache/Access.antt =====
-- `put`, `get`, `clearAll` and `getStatus` of the cache of
-- apps/desktop-agent/src/memory/memory-cache-store.ts. `put` awaits the removal of an entry under
-- its key, so it has two parts; the others run through.
use Prim.Native.Nat.{Ordering}
use nexus_os_ai_workspace.Base.{
  ℕ, ◌+◌, String, Bool, true, false, not, ◌&&◌, ◌||◌, Option, none, some, [], if◌then◌else◌, ltb,
  length, nonempty, ◌==◌, get, put, is_some,
}
use nexus_os_ai_workspace.MemoryCache.{CacheEntry, CacheStore, text_after, remove, store_entry}
use nexus_os_ai_workspace.MemoryCache.Eviction.{Sweep, check_memory_pressure, ensure_capacity}

pub record ReadContext : Type 0 where
  pub task_id : String
  pub workspace_id : String
  pub lease_id : Option String
  pub policy_hash : Option String

-- `entry_too_large` and `ceiling_exceeded` are the errors that `put` throws.
pub data PutOutcome : Type 0 where
  stored entry_too_large ceiling_exceeded : PutOutcome

pub record CacheStatus : Type 0 where
  pub active_entries : ℕ
  pub total_size_bytes : ℕ
  pub total_hits : ℕ
  pub total_misses : ℕ
  pub total_evictions : ℕ
  pub emergency_evictions : ℕ
  pub memory_pressure_active : Bool

-- `bound && bound !== given` fails: an entry without a binding is open to all.
abbrev pub is_bound_to : Option String → Option String → Bool
is_bound_to none given = true
is_bound_to (some owner) none = not (nonempty owner)
is_bound_to (some owner) (some g) = not (nonempty owner) || owner == g

module _ {ℓ} {V : Type ℓ} where
  -- `put` up to the check of the heap: `false` when it throws.
  unfoldable pub begin_put : CacheStore V → CacheEntry V → CacheStore V × Bool
  unfolding remove
  begin_put c e =
      if ltb c.max_entry_size_bytes e.size_bytes
      then (c, false)
      else if is_some (get e.key c.entries)
      then ((remove c e.key).0, true)
      else (c, true)

  unfoldable pub count_miss : CacheStore V → CacheStore V
  count_miss c = record c { total_misses = c.total_misses + 1 }

  abbrev pub may_read : CacheEntry V → ReadContext → Bool
  may_read e r =
      e.task_id == r.task_id
      && e.workspace_id == r.workspace_id
      && is_bound_to e.lease_id r.lease_id
      && is_bound_to e.policy_hash r.policy_hash

  abbrev pub touched : String → CacheEntry V → CacheEntry V
  touched now_iso e = record e { access_count = e.access_count + 1; last_accessed_at = now_iso }

  -- `get` of a key that maps to an entry.
  unfoldable pub read_entry :
      String
      → CacheStore V
      → String
      → ReadContext
      → CacheEntry V
      → CacheStore V × Option (CacheEntry V)
  unfolding remove count_miss
  read_entry now_iso c key r e =
      if text_after now_iso e.expires_at
      then (count_miss (remove c key).0, none)
      else if may_read e r
      then (
        record c { entries = put key (touched now_iso e) c.entries; total_hits = c.total_hits + 1 },
        some (touched now_iso e),
      )
      else (count_miss c, none)

  unfoldable pub get_entry :
      String → CacheStore V → String → ReadContext → CacheStore V × Option (CacheEntry V)
  unfolding read_entry count_miss
  get_entry now_iso c key r = elim (get key c.entries) [
    | none ↦ (count_miss c, none)
    | some e ↦ read_entry now_iso c key r e
  ]

  unfoldable pub clear_all : CacheStore V → CacheStore V
  clear_all c = record c {
    entries = [];
    task_index = [];
    workspace_index = [];
    lease_index = [];
    policy_index = [];
    total_size_bytes = 0;
  }

module _ {ℓ} {V : Type ℓ} (collate : String → String → Ordering) where
  -- The rest of `put`, with the sweep that it leaves behind.
  unfoldable pub finish_put :
      String
      → (pressed : Bool) → CacheStore V
      → CacheEntry V
      → CacheStore V × Option (Sweep V) × PutOutcome
  unfolding check_memory_pressure ensure_capacity store_entry
  finish_put now_iso pressed c e =
      let (made, sweep, fits) =
        ensure_capacity collate now_iso e.size_bytes (check_memory_pressure collate pressed c) in
      if fits then (store_entry made e, sweep, stored) else (made, sweep, ceiling_exceeded)

  -- `put` when nothing else runs while it waits.
  unfoldable pub put_entry :
      String
      → (pressed : Bool) → CacheStore V
      → CacheEntry V
      → CacheStore V × Option (Sweep V) × PutOutcome
  unfolding begin_put finish_put
  put_entry now_iso pressed c e =
      let (c', begun) = begin_put c e in
      if begun then finish_put now_iso pressed c' e else (c', none, entry_too_large)

  -- The numbers are read before the check of the heap, which may evict.
  unfoldable pub get_status : (pressed : Bool) → CacheStore V → CacheStore V × CacheStatus
  unfolding check_memory_pressure
  get_status pressed c = (
    check_memory_pressure collate pressed c,
    record {
      active_entries = length c.entries;
      total_size_bytes = c.total_size_bytes;
      total_hits = c.total_hits;
      total_misses = c.total_misses;
      total_evictions = c.total_evictions;
      emergency_evictions = c.emergency_evictions;
      memory_pressure_active = pressed;
    },
  )
