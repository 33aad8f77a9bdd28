-- ===== src/MemoryCache/Ceiling.antt =====
-- The ceiling of the cache of apps/desktop-agent/src/memory/memory-cache-store.ts.
use Prim.Native.Nat.{Ordering}
use nexus_os_ai_workspace.Base.{
  ℕ, ◌+◌, ◌≡◌, refl, String, Bool, some, List, [], ◌∷◌, arith, Option-cases, Bool-cases, inl, inr,
  get, leb,
}
use nexus_os_ai_workspace.MemoryCache.{CacheEntry, CacheStore, new_store, store_entry, text_after}
use nexus_os_ai_workspace.MemoryCache.Eviction.{Sweep, check_memory_pressure, ensure_capacity}
use nexus_os_ai_workspace.MemoryCache.Access.{
  ReadContext, begin_put, finish_put, may_read, touched, read_entry, get_entry, count_miss,
  clear_all, get_status,
}
use nexus_os_ai_workspace.MemoryCache.Clearing.{
  Kind, of_task, of_workspace, of_lease, of_policy, Clearing, index_of, drop_owner, clear_on,
  begin_clearing, resume_clearing,
}
use nexus_os_ai_workspace.MemoryCache.Removals.{
  kept-resume_sweep, kept-evict_expired, kept-check_memory_pressure, kept-ensure_capacity,
}
use nexus_os_ai_workspace.MemoryCache.Sizes.{held-put, held-put_same, Bounded, Bounded-Stable}
use nexus_os_ai_workspace.MemoryCache.Segments.{
  Segment, begin_segment, finish_segment, resume_segment, get_segment, remove_segment,
  clearing_segment, resume_clearing_segment, evict_segment, status_segment, clear_segment, Running,
  new_cache, resume_first, resume_first_clearing, step, run,
}

module _ {ℓ} {V : Type ℓ} where
  Bounded-begin :
      (ceiling : ℕ) (c : CacheStore V) (e : CacheEntry V)
      → Bounded ceiling c
      → Bounded ceiling (begin_put c e).0
  unfolding begin_put
  Bounded-begin ceiling c e h = ground (arith, h, (Bounded-Stable ceiling).by_remove c e.key h)

  Bounded-get :
      (ceiling : ℕ) (now_iso key : String) (c : CacheStore V) (r : ReadContext)
      → Bounded ceiling c
      → Bounded ceiling (get_entry now_iso c key r).0
  unfolding get_entry read_entry count_miss
  Bounded-get ceiling now_iso key c r h = elim (Option-cases (get key c.entries)) [
    | inl absent ↦ rw (absent, get_entry, count_miss) h
    | inr (e, present) ↦ rw (present, get_entry) (Bounded-read e present)
  ]
    where
      Bounded-read :
          (e : CacheEntry V)
          → get key c.entries ≡ some e
          → Bounded ceiling (read_entry now_iso c key r e).0
      Bounded-read e present = elim (Bool-cases (text_after now_iso e.expires_at)) [
        | inl over ↦ rw (read_entry, over, count_miss) ((Bounded-Stable ceiling).by_remove c key h)
        | inr current ↦ elim (Bool-cases (may_read e r)) [
          | inl open_to ↦
              rw (read_entry, current, open_to)
                (
                  omega
                      (arith, h.0, held-put_same key e (touched now_iso e) c.entries present refl),
                  h.1,
                  h.2,
                )
          | inr closed ↦ rw (read_entry, current, closed, count_miss) h
        ]
      ]

  Bounded-clear_on :
      (ceiling : ℕ) (kind : Kind) (owner : String) (cleared : ℕ) (keys : List String)
      (c : CacheStore V)
      → Bounded ceiling c
      → Bounded ceiling (clear_on kind owner cleared keys c).0
  unfolding clear_on drop_owner
  Bounded-clear_on ceiling of_task owner cleared [] c h = h
  Bounded-clear_on ceiling of_workspace owner cleared [] c h = h
  Bounded-clear_on ceiling of_lease owner cleared [] c h = h
  Bounded-clear_on ceiling of_policy owner cleared [] c h = h
  Bounded-clear_on ceiling kind owner cleared (k ∷ ks) c h =
      (Bounded-Stable ceiling).by_remove c k h

  Bounded-clearing :
      (ceiling : ℕ) (kind : Kind) (c : CacheStore V) (owner : String)
      → Bounded ceiling c
      → Bounded ceiling (begin_clearing kind c owner).0
  unfolding begin_clearing
  Bounded-clearing ceiling kind c owner h = elim (Option-cases (get owner (index_of kind c))) [
    | inl absent ↦ rw (absent, begin_clearing) h
    | inr (keys, present) ↦
        rw (present, begin_clearing) (Bounded-clear_on ceiling kind owner 0 keys c h)
  ]

  Bounded-resume :
      (ceiling : ℕ) (r : Running V) (sweeps : List (Sweep V))
      → Bounded ceiling r.store
      → Bounded ceiling (resume_first r sweeps).store
  unfolding resume_first
  Bounded-resume ceiling r [] h = h
  Bounded-resume ceiling r (s ∷ sweeps) h =
      kept-resume_sweep (Bounded ceiling) (Bounded-Stable ceiling) s r.store h

  Bounded-resume_clearing :
      (ceiling : ℕ) (r : Running V) (ws : List Clearing)
      → Bounded ceiling r.store
      → Bounded ceiling (resume_first_clearing r ws).store
  unfolding resume_first_clearing resume_clearing
  Bounded-resume_clearing ceiling r [] h = h
  Bounded-resume_clearing ceiling r (w ∷ ws) h =
      Bounded-clear_on ceiling w.kind w.owner w.cleared w.rest r.store h

module _ {ℓ} {V : Type ℓ} (collate : String → String → Ordering) where
  Bounded-finish :
      (ceiling : ℕ) (now_iso : String) (pressed : Bool) (c : CacheStore V) (e : CacheEntry V)
      → Bounded ceiling c
      → Bounded ceiling (finish_put collate now_iso pressed c e).0
  unfolding finish_put store_entry
  Bounded-finish ceiling now_iso pressed c e h =
      let eased = check_memory_pressure collate pressed c in
      let made = (ensure_capacity collate now_iso e.size_bytes eased).0 in
      let stable = Bounded-Stable ceiling in
      let kept =
        kept-ensure_capacity (Bounded ceiling) stable collate now_iso e.size_bytes eased
          (kept-check_memory_pressure (Bounded ceiling) stable collate pressed c h) in
      elim (Bool-cases (leb (made.total_size_bytes + e.size_bytes) made.max_memory_bytes)) [
        | inr full ↦ rw (finish_put, full) kept
        | inl fits ↦
            rw (finish_put, fits, store_entry)
              (
                omega (arith, kept.0, held-put e.key e made.entries),
                ground (arith, kept.2, fits),
                kept.2,
              )
      ]

  Bounded-step :
      (ceiling : ℕ) (r : Running V) (s : Segment V)
      → Bounded ceiling r.store
      → Bounded ceiling (step collate r s).store
  unfolding step get_status clear_all
  Bounded-step ceiling r (begin_segment e) h = Bounded-begin ceiling r.store e h
  Bounded-step ceiling r (finish_segment now_iso pressed e) h =
      Bounded-finish ceiling now_iso pressed r.store e h
  Bounded-step ceiling r resume_segment h = Bounded-resume ceiling r r.sweeps h
  Bounded-step ceiling r (get_segment now_iso key ctx) h =
      Bounded-get ceiling now_iso key r.store ctx h
  Bounded-step ceiling r (remove_segment key) h = (Bounded-Stable ceiling).by_remove r.store key h
  Bounded-step ceiling r (clearing_segment kind owner) h =
      Bounded-clearing ceiling kind r.store owner h
  Bounded-step ceiling r resume_clearing_segment h = Bounded-resume_clearing ceiling r r.clearings h
  Bounded-step ceiling r (evict_segment now_iso) h =
      kept-evict_expired (Bounded ceiling) (Bounded-Stable ceiling) now_iso r.store h
  Bounded-step ceiling r (status_segment pressed) h =
      kept-check_memory_pressure (Bounded ceiling) (Bounded-Stable ceiling) collate pressed r.store
        h
  Bounded-step ceiling r clear_segment h = (omega arith, omega arith, h.2)

  Bounded-run :
      (ceiling : ℕ) (r : Running V) (ss : List (Segment V))
      → Bounded ceiling r.store
      → Bounded ceiling (run collate r ss).store
  unfolding run
  Bounded-run ceiling r [] h = h
  Bounded-run ceiling r (s ∷ ss) h =
      Bounded-run ceiling (step collate r s) ss (Bounded-step ceiling r s h)

  -- After any segments on a new cache, in any order, the bytes of the entries that it holds are at
  -- most the bytes it counts, and those at most the configured ceiling.
  pub run-Bounded :
      (entries ceiling entry_bytes : ℕ) (ss : List (Segment V))
      → Bounded ceiling (run collate (new_cache entries ceiling entry_bytes) ss).store
  unfolding new_store
  run-Bounded entries ceiling entry_bytes ss =
      Bounded-run ceiling (new_cache entries ceiling entry_bytes) ss
        (omega arith, omega arith, refl)
