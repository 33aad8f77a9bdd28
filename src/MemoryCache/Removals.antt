-- ===== src/MemoryCache/Removals.antt =====
-- The evictions of the cache of apps/desktop-agent/src/memory/memory-cache-store.ts are sequences of
-- removals: what a removal and a count of evictions keep, they all keep.
use Prim.Native.Nat.{Ordering}
use nexus_os_ai_workspace.Base.{
  ℕ, ◌+◌, ◌/◌, String, Bool, true, false, List, [], ◌∷◌, length, arith, take,
}
use nexus_os_ai_workspace.MemoryCache.{CacheEntry, CacheStore, remove}
use nexus_os_ai_workspace.MemoryCache.Eviction.{
  Sweep, sweep_on, resume_sweep, count_eviction, evict_expired, evict_until, evict_each, values,
  perform_emergency_eviction, check_memory_pressure, sort, by_last_access, by_use, make_room,
  ensure_capacity,
}

-- A predicate on stores that removals and the counters of evictions keep.
pub record Stable {ℓ κ} {V : Type ℓ} (Q : CacheStore V → Type κ) : Type (ℓ ⊔ κ) where
  pub by_remove : (c : CacheStore V) (key : String) → Q c → Q (remove c key).0
  pub by_count :
      (c : CacheStore V) (total emergency : ℕ)
      → Q c
      → Q (record c { total_evictions = total; emergency_evictions = emergency })

module _ {ℓ κ} {V : Type ℓ} (Q : CacheStore V → Type κ) (stable : Stable Q) where
  open stable use {by_remove, by_count}

  counted : (c : CacheStore V) → Q c → Q (count_eviction c)
  counted c = by_count c (c.total_evictions + 1) c.emergency_evictions

  pub kept-sweep_on :
      (now_iso : String) (rest : List (String × CacheEntry V)) (c : CacheStore V)
      → Q c
      → Q (sweep_on now_iso rest c).0
  unfolding sweep_on
  kept-sweep_on now_iso [] c h = h
  kept-sweep_on now_iso ((k, e) ∷ rest) c h =
      ground (arith, by_remove c k h, kept-sweep_on now_iso rest c h)

  pub kept-resume_sweep : (s : Sweep V) (c : CacheStore V) → Q c → Q (resume_sweep s c).0
  unfolding resume_sweep
  kept-resume_sweep s c h = ground (
    arith,
    kept-sweep_on s.now_iso s.rest c h,
    kept-sweep_on s.now_iso s.rest (count_eviction c) (counted c h),
  )

  pub kept-evict_expired :
      (now_iso : String) (c : CacheStore V) → Q c → Q (evict_expired now_iso c).0
  unfolding evict_expired
  kept-evict_expired now_iso c h = kept-sweep_on now_iso c.entries c h

  kept-evict_until :
      (size : ℕ) (es : List (CacheEntry V)) (c : CacheStore V) → Q c → Q (evict_until size es c)
  unfolding evict_until
  kept-evict_until size [] c h = h
  kept-evict_until size (e ∷ es) c h =
      let c' = (remove c e.key).0 in
      let more = kept-evict_until size es (count_eviction c') (counted c' (by_remove c e.key h)) in
      ground (arith, h, more)

  kept-evict_each : (es : List (CacheEntry V)) (c : CacheStore V) → Q c → Q (evict_each es c)
  unfolding evict_each
  kept-evict_each [] c h = h
  kept-evict_each (e ∷ es) c h =
      let c' = (remove c e.key).0 in
      kept-evict_each es
        (record c' {
          emergency_evictions = c'.emergency_evictions + 1;
          total_evictions = c'.total_evictions + 1;
        })
        (by_count c' (c'.total_evictions + 1) (c'.emergency_evictions + 1) (by_remove c e.key h))

  pub kept-check_memory_pressure :
      (collate : String → String → Ordering) (pressed : Bool) (c : CacheStore V)
      → Q c
      → Q (check_memory_pressure collate pressed c)
  unfolding check_memory_pressure perform_emergency_eviction
  kept-check_memory_pressure collate false c h = h
  kept-check_memory_pressure collate true c h =
      let victims = sort collate (by_last_access collate) (values c.entries) in
      kept-evict_each (take ((length c.entries + 1) / 2) victims) c h

  pub kept-ensure_capacity :
      (collate : String → String → Ordering) (now_iso : String) (size : ℕ) (c : CacheStore V)
      → Q c
      → Q (ensure_capacity collate now_iso size c).0
  unfolding ensure_capacity make_room
  kept-ensure_capacity collate now_iso size c h =
      let swept = (evict_expired now_iso c).0 in
      let s = kept-evict_expired now_iso c h in
      let es = sort collate (by_use collate) (values swept.entries) in
      ground (arith, s, kept-evict_until size es swept s)
