-- ===== src/MemoryCache/Eviction.antt =====
-- How the cache of apps/desktop-agent/src/memory/memory-cache-store.ts makes room: `evictExpired`,
-- `ensureCapacity`, `performEmergencyEviction`, `checkMemoryPressure`. `collate` is `localeCompare`;
-- whether the heap is under pressure is an argument. `ensureCapacity` does not await
-- `evictExpired`, so that call only removes the first expired entry before `ensureCapacity` goes
-- on: what is left of it is a `Sweep`, which runs on later.
use Prim.Native.Nat.{Ordering, compare}
use nexus_os_ai_workspace.Base.{
  ℕ, ◌+◌, ◌/◌, String, Bool, ◌&&◌, Option, none, some, List, [], ◌∷◌, if◌then◌else◌, ltb, leb,
  length, take, ◌==◌,
}
use nexus_os_ai_workspace.MemoryCache.{CacheEntry, CacheStore, text_after, remove}

-- Suspended in the removal of an entry, with the entries still to visit.
pub record Sweep {ℓ} (V : Type ℓ) : Type ℓ where
  pub now_iso : String
  pub removed : Bool
  pub rest : List (String × CacheEntry V)

module _ {ℓ} {V : Type ℓ} where
  abbrev pub is_expired : String → CacheEntry V → Bool
  is_expired now_iso e = text_after now_iso e.expires_at

  -- `evictExpired` up to the next removal, where it suspends; `none` when it is done.
  unfoldable pub sweep_on :
      String → List (String × CacheEntry V) → CacheStore V → CacheStore V × Option (Sweep V)
  unfolding remove
  sweep_on now_iso [] c = (c, none)
  sweep_on now_iso ((k, e) ∷ rest) c =
      let later = sweep_on now_iso rest c in
      let (c', removed) = remove c k in
      if is_expired now_iso e
      then (c', some (record { now_iso = now_iso; removed = removed; rest = rest }))
      else later

  abbrev pub count_eviction : CacheStore V → CacheStore V
  count_eviction c = record c { total_evictions = c.total_evictions + 1 }

  -- A sweep that goes on after the removal it waited for.
  unfoldable pub resume_sweep : Sweep V → CacheStore V → CacheStore V × Option (Sweep V)
  unfolding sweep_on
  resume_sweep s c = sweep_on s.now_iso s.rest (if s.removed then count_eviction c else c)

  -- `evictExpired` up to its first removal, over the entries as they are at its start. The number
  -- it returns is left out.
  unfoldable pub evict_expired : String → CacheStore V → CacheStore V × Option (Sweep V)
  unfolding sweep_on
  evict_expired now_iso c = sweep_on now_iso c.entries c

  abbrev pub values : List (String × CacheEntry V) → List (CacheEntry V)
  values [] = []
  values ((k, e) ∷ m) = e ∷ values m

  -- Room for one more entry of this size.
  abbrev pub has_room : ℕ → CacheStore V → Bool
  has_room size c =
      ltb (length c.entries) c.max_entries && leb (c.total_size_bytes + size) c.max_memory_bytes

  -- The loop of `ensureCapacity` over the entries, least recently used first.
  unfoldable pub evict_until : ℕ → List (CacheEntry V) → CacheStore V → CacheStore V
  unfolding remove
  evict_until size [] c = c
  evict_until size (e ∷ es) c =
      let more = evict_until size es (count_eviction (remove c e.key).0) in
      if has_room size c then c else more

  -- The loop of `performEmergencyEviction`.
  unfoldable pub evict_each : List (CacheEntry V) → CacheStore V → CacheStore V
  unfolding remove
  evict_each [] c = c
  evict_each (e ∷ es) c =
      let removed = (remove c e.key).0 in
      evict_each es (record removed {
        emergency_evictions = removed.emergency_evictions + 1;
        total_evictions = removed.total_evictions + 1;
      })

module _ {ℓ} {V : Type ℓ} (collate : String → String → Ordering) where
  -- The two comparators of `sort`; `gt` puts the first argument last.
  abbrev pub by_last_access : CacheEntry V → CacheEntry V → Ordering
  by_last_access a b = collate a.last_accessed_at b.last_accessed_at

  abbrev pub by_use : CacheEntry V → CacheEntry V → Ordering
  by_use a b =
      if a.last_accessed_at == b.last_accessed_at
      then compare a.access_count b.access_count
      else by_last_access a b

  -- A stable sort.
  unfoldable pub insert :
      (CacheEntry V → CacheEntry V → Ordering)
      → CacheEntry V
      → List (CacheEntry V)
      → List (CacheEntry V)
  insert cmp e [] = e ∷ []
  insert cmp e (f ∷ fs) =
      let rest = insert cmp e fs in elim (cmp e f) [ Ordering.gt ↦ f ∷ rest | _ ↦ e ∷ f ∷ fs ]

  unfoldable pub sort :
      (CacheEntry V → CacheEntry V → Ordering) → List (CacheEntry V) → List (CacheEntry V)
  unfolding insert
  sort cmp [] = []
  sort cmp (e ∷ es) = insert cmp e (sort cmp es)

  -- Half of the entries, rounded up, least recently used first.
  unfoldable pub perform_emergency_eviction : CacheStore V → CacheStore V
  unfolding sort evict_each
  perform_emergency_eviction c =
      evict_each (take ((length c.entries + 1) / 2) (sort by_last_access (values c.entries))) c

  unfoldable pub check_memory_pressure : (pressed : Bool) → CacheStore V → CacheStore V
  unfolding perform_emergency_eviction
  check_memory_pressure pressed c = if pressed then perform_emergency_eviction c else c

  -- The eviction by use, once the sweep has suspended.
  unfoldable pub make_room : ℕ → CacheStore V → CacheStore V
  unfolding sort evict_until
  make_room size c =
      if has_room size c then c else evict_until size (sort by_use (values c.entries)) c

  -- `ensureCapacity`: the store, the sweep it leaves behind, and whether the size fits (it throws
  -- otherwise).
  unfoldable pub ensure_capacity :
      String → ℕ → CacheStore V → CacheStore V × Option (Sweep V) × Bool
  unfolding evict_expired make_room
  ensure_capacity now_iso size c =
      let (swept, sweep) = evict_expired now_iso c in
      let made = make_room size swept in
      (made, sweep, leb (made.total_size_bytes + size) made.max_memory_bytes)
