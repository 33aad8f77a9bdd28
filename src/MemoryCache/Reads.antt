-- ===== src/MemoryCache/Reads.antt =====
-- Who may read an entry of the cache of apps/desktop-agent/src/memory/memory-cache-store.ts.
use nexus_os_ai_workspace.Base.{
  ◌≡◌, sym, inl, inr, String, true, false, some, arith, Option-cases, Bool-cases, eq_iff, get,
}
use nexus_os_ai_workspace.MemoryCache.{CacheEntry, CacheStore, text_after}
use nexus_os_ai_workspace.MemoryCache.Access.{
  ReadContext, is_bound_to, may_read, touched, read_entry, get_entry,
}

module _ {ℓ} {V : Type ℓ} where
  -- An entry that is handed out was stored under the key and has not expired; it is of the task and
  -- the workspace that ask, and a lease or a policy that it is bound to is the one given. Only its
  -- access count and time are new.
  pub get_entry-Isolated :
      (now_iso key : String) (c : CacheStore V) (r : ReadContext) (e : CacheEntry V)
      → (get_entry now_iso c key r).1 ≡ some e
      → (f : CacheEntry V) × (get key c.entries ≡ some f)
        × (e ≡ touched now_iso f)
        × (text_after now_iso f.expires_at ≡ false)
        × (f.task_id ≡ r.task_id)
        × (f.workspace_id ≡ r.workspace_id)
        × (is_bound_to f.lease_id r.lease_id ≡ true)
        × (is_bound_to f.policy_hash r.policy_hash ≡ true)
  unfolding get_entry read_entry
  get_entry-Isolated now_iso key c r e h = elim (Option-cases (get key c.entries)) [
    | inl absent ↦ cc (rw (get_entry, absent) at h)
    | inr (f, present) ↦
        let k : (read_entry now_iso c key r f).1 ≡ some e = rw (get_entry, present) at h in
        let (same, current, task, workspace, lease, policy) = checked f k in
        (f, present, same, current, task, workspace, lease, policy)
  ]
    where
      checked :
          (f : CacheEntry V)
          → (read_entry now_iso c key r f).1 ≡ some e
          → (e ≡ touched now_iso f)
            × (text_after now_iso f.expires_at ≡ false)
            × (f.task_id ≡ r.task_id)
            × (f.workspace_id ≡ r.workspace_id)
            × (is_bound_to f.lease_id r.lease_id ≡ true)
            × (is_bound_to f.policy_hash r.policy_hash ≡ true)
      checked f k = elim (Bool-cases (text_after now_iso f.expires_at)) [
        | inl over ↦ cc (rw (read_entry, over) at k)
        | inr current ↦ elim (Bool-cases (may_read f r)) [
          | inr closed ↦ cc (rw (read_entry, current, closed) at k)
          | inl open_to ↦
              let same : touched now_iso f ≡ e = cc (rw (read_entry, current, open_to) at k) in
              (
                sym same,
                current,
                ground (arith, open_to, eq_iff f.task_id r.task_id),
                ground (arith, open_to, eq_iff f.workspace_id r.workspace_id),
                ground (arith, open_to),
                ground (arith, open_to),
              )
        ]
      ]
