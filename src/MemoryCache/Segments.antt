-- ===== src/MemoryCache/Segments.antt =====
-- The calls on the cache of apps/desktop-agent/src/memory/memory-cache-store.ts as atomic segments
-- in any order. The two parts of `put` stand apart, and so do the parts of the clearing methods and
-- of `evictExpired` between the removals that they await: other calls may come between them.
use Prim.Native.Nat.{Ordering}
use nexus_os_ai_workspace.Base.{ℕ, String, Bool, Option, none, some, List, [], ◌∷◌, ◌++◌}
use nexus_os_ai_workspace.MemoryCache.{CacheEntry, CacheStore, new_store, remove}
use nexus_os_ai_workspace.MemoryCache.Eviction.{Sweep, resume_sweep, evict_expired}
use nexus_os_ai_workspace.MemoryCache.Access.{
  ReadContext, begin_put, finish_put, get_entry, clear_all, get_status,
}
use nexus_os_ai_workspace.MemoryCache.Clearing.{
  Kind, Clearing, Progress, finished, suspended, resume_clearing, begin_clearing,
}

pub data Segment {ℓ} (V : Type ℓ) : Type ℓ where
  begin_segment : CacheEntry V → Segment V
  finish_segment : (now_iso : String) → (pressed : Bool) → CacheEntry V → Segment V
  resume_segment : Segment V
  get_segment : (now_iso key : String) → ReadContext → Segment V
  remove_segment : (key : String) → Segment V
  clearing_segment : Kind → (owner : String) → Segment V
  resume_clearing_segment : Segment V
  evict_segment : (now_iso : String) → Segment V
  status_segment : (pressed : Bool) → Segment V
  clear_segment : Segment V

-- A store with the sweeps and the clearing calls that still have to go on, oldest first.
pub record Running {ℓ} (V : Type ℓ) : Type ℓ where
  pub store : CacheStore V
  pub sweeps : List (Sweep V)
  pub clearings : List Clearing

abbrev pub queue_clearing : List Clearing → Progress → List Clearing
queue_clearing ws (finished n) = ws
queue_clearing ws (suspended w) = ws ++ w ∷ []

module _ {ℓ} {V : Type ℓ} where
  abbrev pub new_cache : (entries bytes entry_bytes : ℕ) → Running V
  new_cache entries bytes entry_bytes = record {
    store = new_store entries bytes entry_bytes;
    sweeps = [];
    clearings = [];
  }

  abbrev pub queue : List (Sweep V) → Option (Sweep V) → List (Sweep V)
  queue sweeps none = sweeps
  queue sweeps (some s) = sweeps ++ s ∷ []

  unfoldable pub resume_first : Running V → List (Sweep V) → Running V
  unfolding resume_sweep
  resume_first r [] = r
  resume_first r (s ∷ sweeps) =
      let (c, more) = resume_sweep s r.store in record r { store = c; sweeps = queue sweeps more }

  unfoldable pub resume_first_clearing : Running V → List Clearing → Running V
  unfolding resume_clearing
  resume_first_clearing r [] = r
  resume_first_clearing r (w ∷ ws) =
      let (c, progress) = resume_clearing w r.store in
      record r { store = c; clearings = queue_clearing ws progress }

module _ {ℓ} {V : Type ℓ} (collate : String → String → Ordering) where
  unfoldable pub step : Running V → Segment V → Running V
  unfolding begin_put finish_put resume_first resume_first_clearing get_entry remove begin_clearing
      evict_expired get_status clear_all
  step r (begin_segment e) = record r { store = (begin_put r.store e).0 }
  step r (finish_segment now_iso pressed e) =
      let (c, sweep, _) = finish_put collate now_iso pressed r.store e in
      record r { store = c; sweeps = queue r.sweeps sweep }
  step r resume_segment = resume_first r r.sweeps
  step r (get_segment now_iso key ctx) = record r { store = (get_entry now_iso r.store key ctx).0 }
  step r (remove_segment key) = record r { store = (remove r.store key).0 }
  step r (clearing_segment kind owner) =
      let (c, progress) = begin_clearing kind r.store owner in
      record r { store = c; clearings = queue_clearing r.clearings progress }
  step r resume_clearing_segment = resume_first_clearing r r.clearings
  step r (evict_segment now_iso) =
      let (c, sweep) = evict_expired now_iso r.store in
      record r { store = c; sweeps = queue r.sweeps sweep }
  step r (status_segment pressed) = record r { store = (get_status collate pressed r.store).0 }
  step r clear_segment = record r { store = clear_all r.store }

  unfoldable pub run : Running V → List (Segment V) → Running V
  unfolding step
  run r [] = r
  run r (s ∷ ss) = run (step r s) ss
