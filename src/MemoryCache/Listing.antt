-- ===== src/MemoryCache/Listing.antt =====
-- The indices of the cache of apps/desktop-agent/src/memory/memory-cache-store.ts list the entries
-- that are bound to a lease or a policy.
use Prim.Native.Nat.{Ordering}
use nexus_os_ai_workspace.Base.{
  ◌+◌, ◌≡◌, refl, String, Bool, some, Option-cases, Bool-cases, inl, inr, get, leb,
}
use nexus_os_ai_workspace.MemoryCache.{
  CacheEntry, CacheStore, remove, remove_entry, store_entry, text_after,
}
use nexus_os_ai_workspace.MemoryCache.Eviction.{check_memory_pressure, ensure_capacity}
use nexus_os_ai_workspace.MemoryCache.Access.{
  ReadContext, finish_put, may_read, touched, read_entry, get_entry, count_miss,
}
use nexus_os_ai_workspace.MemoryCache.Removals.{
  Stable, kept-check_memory_pressure, kept-ensure_capacity,
}
use nexus_os_ai_workspace.MemoryCache.Indices.{
  Indexed, Indexed-remove, Indexed-store, Indexed-touch,
}

module _ {ℓ} {V : Type ℓ} where
  -- Every entry that is bound to a lease or to a policy is listed under it.
  abbrev pub Listed : CacheStore V → Type ℓ
  Listed c =
      Indexed (λ e. e.lease_id) c.entries c.lease_index
      × Indexed (λ e. e.policy_hash) c.entries c.policy_index

  pub Listed-remove : (c : CacheStore V) (key : String) → Listed c → Listed (remove c key).0
  unfolding remove remove_entry
  Listed-remove c key h = elim (Option-cases (get key c.entries)) [
    | inl absent ↦ rw (absent, remove) h
    | inr (e, present) ↦
        rw (present, remove, remove_entry)
          (
            Indexed-remove (λ e. e.lease_id) c.entries c.lease_index key e h.0,
            Indexed-remove (λ e. e.policy_hash) c.entries c.policy_index key e h.1,
          )
  ]

  Listed-Stable : Stable Listed
  Listed-Stable = record { by_remove = Listed-remove; by_count = λ c total emergency h. h }

  pub Listed-get :
      (now_iso key : String) (c : CacheStore V) (r : ReadContext)
      → Listed c
      → Listed (get_entry now_iso c key r).0
  unfolding get_entry read_entry count_miss
  Listed-get now_iso key c r h = elim (Option-cases (get key c.entries)) [
    | inl absent ↦ rw (absent, get_entry, count_miss) h
    | inr (e, present) ↦ rw (present, get_entry) (Listed-read e present)
  ]
    where
      Listed-read :
          (e : CacheEntry V) → get key c.entries ≡ some e → Listed (read_entry now_iso c key r e).0
      Listed-read e present = elim (Bool-cases (text_after now_iso e.expires_at)) [
        | inl over ↦ rw (read_entry, over, count_miss) (Listed-remove c key h)
        | inr current ↦ elim (Bool-cases (may_read e r)) [
          | inr closed ↦ rw (read_entry, current, closed, count_miss) h
          | inl open_to ↦
              rw (read_entry, current, open_to)
                (
                  Indexed-touch (λ e. e.lease_id) c.entries c.lease_index key e (touched now_iso e)
                      present refl h.0,
                  Indexed-touch (λ e. e.policy_hash) c.entries c.policy_index key e
                      (touched now_iso e) present refl h.1,
                )
        ]
      ]

module _ {ℓ} {V : Type ℓ} (collate : String → String → Ordering) where
  pub Listed-finish :
      (now_iso : String) (pressed : Bool) (c : CacheStore V) (e : CacheEntry V)
      → Listed c
      → Listed (finish_put collate now_iso pressed c e).0
  unfolding finish_put store_entry
  Listed-finish now_iso pressed c e h =
      let eased = check_memory_pressure collate pressed c in
      let made = (ensure_capacity collate now_iso e.size_bytes eased).0 in
      let kept =
        kept-ensure_capacity Listed Listed-Stable collate now_iso e.size_bytes eased
          (kept-check_memory_pressure Listed Listed-Stable collate pressed c h) in
      elim (Bool-cases (leb (made.total_size_bytes + e.size_bytes) made.max_memory_bytes)) [
        | inr full ↦ rw (finish_put, full) kept
        | inl fits ↦
            rw (finish_put, fits, store_entry)
              (
                Indexed-store (λ e. e.lease_id) made.entries made.lease_index e.key e kept.0,
                Indexed-store (λ e. e.policy_hash) made.entries made.policy_index e.key e kept.1,
              )
      ]
