-- ===== src/MemoryCache/Waiting.antt =====
-- What the clearing methods of apps/desktop-agent/src/memory/memory-cache-store.ts keep while they
-- wait, and what they leave when they end.

use nexus_os_ai_workspace.Base.{
  ℕ, ◌≡◌, ◌≢◌, refl, sym, String, true, Option, none, some, List, [], ◌∷◌, arith, Option-cases, inl,
  inr, nonempty, get, All, All-mono, All-append,
}
use nexus_os_ai_workspace.MemoryCache.{CacheEntry, CacheStore, remove}
use nexus_os_ai_workspace.MemoryCache.Eviction.{Sweep}
use nexus_os_ai_workspace.MemoryCache.Access.{ReadContext, begin_put, get_entry}
use nexus_os_ai_workspace.MemoryCache.Clearing.{
  Kind, of_task, of_workspace, of_lease, of_policy, Clearing, Progress, finished, suspended,
  index_of, drop_owner, clear_on, resume_clearing, begin_clearing,
}
use nexus_os_ai_workspace.MemoryCache.Removals.{Stable, kept-resume_sweep}
use nexus_os_ai_workspace.MemoryCache.Indices.{Indexed, keys_of, Indexed-drop}
use nexus_os_ai_workspace.MemoryCache.Left.{bound, Among, Left, Among-remove, Among-next, Among-get}
use nexus_os_ai_workspace.MemoryCache.Segments.{
  Segment, clearing_segment, resume_clearing_segment, Running, queue_clearing, resume_first,
  resume_first_clearing,
}
use nexus_os_ai_workspace.MemoryCache.Listing.{Listed, Listed-remove, Listed-get}

-- The clearing call that a segment brings to its end.
abbrev pub ended : Kind → String → Progress → Option (Kind × String)
ended kind owner (finished n) = some (kind, owner)
ended kind owner (suspended w) = none

module _ {ℓ} {V : Type ℓ} where
  -- No entry is bound to an owner that is not empty.
  abbrev pub Free : Kind → String → CacheStore V → Type ℓ
  Free kind owner c =
      (k : String) (e : CacheEntry V)
      → get k c.entries ≡ some e
      → nonempty owner ≡ true
      → bound kind e ≢ some owner

  -- The index lists all that is bound.
  keys_of-Among :
      (kind : Kind) (c : CacheStore V) (owner : String)
      → Listed c
      → Among kind owner (keys_of (index_of kind c) owner) c
  unfolding Indexed
  keys_of-Among of_task c owner h k e at filled own = cc own
  keys_of-Among of_workspace c owner h k e at filled own = cc own
  keys_of-Among of_lease c owner h k e at filled own = h.0 k e owner at own filled
  keys_of-Among of_policy c owner h k e at filled own = h.1 k e owner at own filled

  Listed-drop :
      (kind : Kind) (owner : String) (c : CacheStore V)
      → Free kind owner c
      → Listed c
      → Listed (drop_owner kind owner c)
  unfolding drop_owner
  Listed-drop of_task owner c free h = h
  Listed-drop of_workspace owner c free h = h
  Listed-drop of_lease owner c free h =
      (Indexed-drop (λ e. e.lease_id) c.entries c.lease_index owner free h.0, h.1)
  Listed-drop of_policy owner c free h =
      (h.0, Indexed-drop (λ e. e.policy_hash) c.entries c.policy_index owner free h.1)

  entries-drop :
      (kind : Kind) (owner : String) (c : CacheStore V)
      → (drop_owner kind owner c).entries ≡ c.entries
  unfolding drop_owner
  entries-drop of_task owner c = refl
  entries-drop of_workspace owner c = refl
  entries-drop of_lease owner c = refl
  entries-drop of_policy owner c = refl

  -- The bound entries are listed, and those that a waiting call has to clear are left to it.
  abbrev pub Safe : CacheStore V → List Clearing → Type ℓ
  Safe c ws = Listed c × All (Left c) ws

  -- Where a clearing call stands after a segment of its own.
  abbrev pub Stands : Kind → String → CacheStore V → Progress → Type ℓ
  Stands kind owner c (finished n) = Free kind owner c
  Stands kind owner c (suspended w) = Left c w

  pub Safe-Stable : (ws : List Clearing) → Stable (λ (c : CacheStore V). Safe c ws)
  Safe-Stable ws = record {
    by_remove = λ c key h. (
      Listed-remove c key h.0,
      All-mono (Left c) (Left (remove c key).0) ws (λ w. Among-remove w.kind w.owner w.rest c key)
          h.1,
    );
    by_count = λ c total emergency h. h;
  }

  Safe-clear_on :
      (kind : Kind) (owner : String) (cleared : ℕ) (keys : List String) (c : CacheStore V)
      (ws : List Clearing)
      → Safe c ws
      → Among kind owner keys c
      → let (c', progress) = clear_on kind owner cleared keys c in
        Safe c' ws × Stands kind owner c' progress
  unfolding clear_on
  Safe-clear_on kind owner cleared [] c ws h left =
      let free : Free kind owner c = λ k e at filled own. cc (left k e at filled own) in
      let same = entries-drop kind owner c in
      (
        (
          Listed-drop kind owner c free h.0,
          All-mono (Left c) (Left (drop_owner kind owner c)) ws
              (λ w l k e at. l k e (rw same at at)) h.1,
        ),
        λ k e at. free k e (rw same at at),
      )
  Safe-clear_on kind owner cleared (k ∷ ks) c ws h left =
      ((Safe-Stable ws).by_remove c k h, Among-next kind owner k ks c left)

  pub Safe-begin :
      (kind : Kind) (c : CacheStore V) (owner : String) (ws : List Clearing)
      → Safe c ws
      → let (c', progress) = begin_clearing kind c owner in
        Safe c' ws × Stands kind owner c' progress
  unfolding begin_clearing
  Safe-begin kind c owner ws h =
      let left = keys_of-Among kind c owner h.0 in
      elim (Option-cases (get owner (index_of kind c))) [
        | inl absent ↦
            let nothing : Among kind owner [] c = rw absent at left in
            rw (absent, begin_clearing) (h, λ k e at filled own. cc (nothing k e at filled own))
        | inr (keys, present) ↦
            rw (present, begin_clearing)
              (Safe-clear_on kind owner 0 keys c ws h (rw present at left))
      ]

  pub All-queue :
      (kind : Kind) (owner : String) (c : CacheStore V) (ws : List Clearing) (progress : Progress)
      → All (Left c) ws
      → Stands kind owner c progress
      → All (Left c) (queue_clearing ws progress)
  All-queue kind owner c ws (finished n) h s = h
  All-queue kind owner c ws (suspended w) h s = All-append (Left c) ws (w ∷ []) h (s, tt)

  pub Safe-get :
      (now_iso key : String) (c : CacheStore V) (r : ReadContext) (ws : List Clearing)
      → Safe c ws
      → Safe (get_entry now_iso c key r).0 ws
  Safe-get now_iso key c r ws h = (
    Listed-get now_iso key c r h.0,
    All-mono (Left c) (Left (get_entry now_iso c key r).0) ws
        (λ w. Among-get w.kind w.owner w.rest now_iso key c r) h.1,
  )

  pub Safe-put :
      (c : CacheStore V) (e : CacheEntry V) (ws : List Clearing)
      → Safe c ws
      → Safe (begin_put c e).0 ws
  unfolding begin_put
  Safe-put c e ws h = ground (arith, h, (Safe-Stable ws).by_remove c e.key h)

  pub Safe-resume :
      (r : Running V) (sweeps : List (Sweep V))
      → Safe r.store r.clearings
      → Safe (resume_first r sweeps).store (resume_first r sweeps).clearings
  unfolding resume_first
  Safe-resume r [] h = h
  Safe-resume r (s ∷ sweeps) h =
      kept-resume_sweep (λ c. Safe c r.clearings) (Safe-Stable r.clearings) s r.store h

  pub Safe-resume_clearing :
      (r : Running V) (ws : List Clearing)
      → r.clearings ≡ ws
      → Safe r.store r.clearings
      → Safe (resume_first_clearing r ws).store (resume_first_clearing r ws).clearings
  unfolding resume_first_clearing resume_clearing
  Safe-resume_clearing r [] same h = h
  Safe-resume_clearing r (w ∷ ws) same h =
      let waiting : All (Left r.store) (w ∷ ws) = rw same at h.1 in
      let (c, progress) = clear_on w.kind w.owner w.cleared w.rest r.store in
      let (safe, stands) =
        Safe-clear_on w.kind w.owner w.cleared w.rest r.store ws (h.0, waiting.1) waiting.0 in
      (safe.0, All-queue w.kind w.owner c ws progress safe.1 stands)

  abbrev pub first_ended : CacheStore V → List Clearing → Option (Kind × String)
  first_ended c [] = none
  first_ended c (w ∷ ws) = ended w.kind w.owner (resume_clearing w c).1

  abbrev pub ends : Running V → Segment V → Option (Kind × String)
  ends r (clearing_segment kind owner) = ended kind owner (begin_clearing kind r.store owner).1
  ends r resume_clearing_segment = first_ended r.store r.clearings
  ends r _ = none

  pub Free-ended :
      (kind kind' : Kind) (owner owner' : String) (c : CacheStore V) (progress : Progress)
      → ended kind owner progress ≡ some (kind', owner')
      → Stands kind owner c progress
      → Free kind' owner' c
  Free-ended kind kind' owner owner' c (finished n) e s =
      let of : kind ≡ kind' = cc e in let to : owner ≡ owner' = cc e in rw (sym of, sym to) s
  Free-ended kind kind' owner owner' c (suspended w) e s = cc e

  pub Free-first :
      (r : Running V) (ws : List Clearing) (kind : Kind) (owner : String)
      → r.clearings ≡ ws
      → Safe r.store r.clearings
      → first_ended r.store ws ≡ some (kind, owner)
      → Free kind owner (resume_first_clearing r ws).store
  unfolding resume_first_clearing resume_clearing
  Free-first r [] kind owner same h e = cc e
  Free-first r (w ∷ ws) kind owner same h e =
      let waiting : All (Left r.store) (w ∷ ws) = rw same at h.1 in
      let (c, progress) = clear_on w.kind w.owner w.cleared w.rest r.store in
      let (safe, stands) =
        Safe-clear_on w.kind w.owner w.cleared w.rest r.store ws (h.0, waiting.1) waiting.0 in
      Free-ended w.kind kind w.owner owner c progress e stands
