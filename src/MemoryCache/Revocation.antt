-- ===== src/MemoryCache/Revocation.antt =====
-- `clearLease` and `invalidatePolicyHash` of apps/desktop-agent/src/memory/memory-cache-store.ts
-- leave no entry behind that is bound to what was revoked, unless a `put` finishes while they wait.
use Prim.Native.Nat.{Ordering}
use nexus_os_ai_workspace.Base.{ℕ, ◌≡◌, refl, String, Bool, some, List, [], ◌∷◌, get, All-mono}
use nexus_os_ai_workspace.MemoryCache.{CacheEntry, CacheStore, new_store}
use nexus_os_ai_workspace.MemoryCache.Access.{finish_put, clear_all, get_status}
use nexus_os_ai_workspace.MemoryCache.Clearing.{Kind, Clearing, begin_clearing}
use nexus_os_ai_workspace.MemoryCache.Removals.{kept-evict_expired, kept-check_memory_pressure}
use nexus_os_ai_workspace.MemoryCache.Indices.{Indexed}
use nexus_os_ai_workspace.MemoryCache.Left.{Left}
use nexus_os_ai_workspace.MemoryCache.Segments.{
  Segment, begin_segment, finish_segment, resume_segment, get_segment, remove_segment,
  clearing_segment, resume_clearing_segment, evict_segment, status_segment, clear_segment, Running,
  new_cache, step, run,
}
use nexus_os_ai_workspace.MemoryCache.Listing.{Listed-finish}
use nexus_os_ai_workspace.MemoryCache.Waiting.{
  Free, Safe, Safe-Stable, Safe-begin, All-queue, Safe-get, Safe-put, Safe-resume,
  Safe-resume_clearing, ends, Free-ended, Free-first,
}

module _ {ℓ} {V : Type ℓ} (collate : String → String → Ordering) where
  -- No clearing call waits when a `put` finishes.
  abbrev pub Settled : Running V → Segment V → Type 0
  Settled r (finish_segment now_iso pressed e) = r.clearings ≡ []
  Settled r _ = Unit

  abbrev pub Undisturbed : Running V → List (Segment V) → Type 0
  Undisturbed r [] = Unit
  Undisturbed r (s ∷ ss) = Settled r s × Undisturbed (step collate r s) ss

  Safe-finish :
      (now_iso : String) (pressed : Bool) (c : CacheStore V) (e : CacheEntry V) (ws : List Clearing)
      → ws ≡ []
      → Safe c ws
      → Safe (finish_put collate now_iso pressed c e).0 ws
  Safe-finish now_iso pressed c e [] none_waits h =
      (Listed-finish collate now_iso pressed c e h.0, tt)
  Safe-finish now_iso pressed c e (w ∷ ws) none_waits h = cc none_waits

  Safe-step :
      (r : Running V) (s : Segment V)
      → Settled r s
      → Safe r.store r.clearings
      → Safe (step collate r s).store (step collate r s).clearings
  unfolding step get_status clear_all get Indexed
  Safe-step r (begin_segment e) q h = Safe-put r.store e r.clearings h
  Safe-step r (finish_segment now_iso pressed e) q h =
      Safe-finish now_iso pressed r.store e r.clearings q h
  Safe-step r resume_segment q h = Safe-resume r r.sweeps h
  Safe-step r (get_segment now_iso key ctx) q h = Safe-get now_iso key r.store ctx r.clearings h
  Safe-step r (remove_segment key) q h = (Safe-Stable r.clearings).by_remove r.store key h
  Safe-step r (clearing_segment kind owner) q h =
      let (c, progress) = begin_clearing kind r.store owner in
      let (safe, stands) = Safe-begin kind r.store owner r.clearings h in
      (safe.0, All-queue kind owner c r.clearings progress safe.1 stands)
  Safe-step r resume_clearing_segment q h = Safe-resume_clearing r r.clearings refl h
  Safe-step r (evict_segment now_iso) q h =
      kept-evict_expired (λ c. Safe c r.clearings) (Safe-Stable r.clearings) now_iso r.store h
  Safe-step r (status_segment pressed) q h =
      kept-check_memory_pressure (λ c. Safe c r.clearings) (Safe-Stable r.clearings) collate pressed
        r.store h
  Safe-step r clear_segment q h = (
    (λ k e o at own filled. cc at, λ k e o at own filled. cc at),
    All-mono (Left r.store) (Left (clear_all r.store)) r.clearings (λ w l k e at. cc at) h.1,
  )

  Free-step :
      (r : Running V) (s : Segment V) (kind : Kind) (owner : String)
      → Safe r.store r.clearings
      → ends r s ≡ some (kind, owner)
      → Free kind owner (step collate r s).store
  unfolding step
  Free-step r (begin_segment e) kind owner h is = cc is
  Free-step r (finish_segment now_iso pressed e) kind owner h is = cc is
  Free-step r resume_segment kind owner h is = cc is
  Free-step r (get_segment now_iso key ctx) kind owner h is = cc is
  Free-step r (remove_segment key) kind owner h is = cc is
  Free-step r (clearing_segment k o) kind owner h is =
      let (c, progress) = begin_clearing k r.store o in
      Free-ended k kind o owner c progress is (Safe-begin k r.store o r.clearings h).1
  Free-step r resume_clearing_segment kind owner h is =
      Free-first r r.clearings kind owner refl h is
  Free-step r (evict_segment now_iso) kind owner h is = cc is
  Free-step r (status_segment pressed) kind owner h is = cc is
  Free-step r clear_segment kind owner h is = cc is

  Safe-run :
      (r : Running V) (ss : List (Segment V))
      → Undisturbed r ss
      → Safe r.store r.clearings
      → Safe (run collate r ss).store (run collate r ss).clearings
  unfolding run
  Safe-run r [] q h = h
  Safe-run r (s ∷ ss) q h = Safe-run (step collate r s) ss q.1 (Safe-step r s q.0 h)

  -- When, after segments on a new cache of which no `put` finishes while a clearing call waits, a
  -- segment brings `clearLease` or `invalidatePolicyHash` to its end, no entry is bound to the lease
  -- or the policy it was given, if that is not empty: whatever else ran while the call waited.
  pub run-revokes :
      (entries ceiling entry_bytes : ℕ) (ss : List (Segment V)) (s : Segment V) (kind : Kind)
      (owner : String)
      → Undisturbed (new_cache entries ceiling entry_bytes) ss
      → let r = run collate (new_cache entries ceiling entry_bytes) ss in
        ends r s ≡ some (kind, owner) → Free kind owner (step collate r s).store
  unfolding new_store get Indexed
  run-revokes entries ceiling entry_bytes ss s kind owner quiet e =
      let start = new_cache entries ceiling entry_bytes in
      let safe =
        Safe-run start ss quiet
          ((λ k e o at own filled. cc at, λ k e o at own filled. cc at), tt) in
      Free-step (run collate start ss) s kind owner safe e
