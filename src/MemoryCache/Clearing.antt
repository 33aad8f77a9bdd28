-- ===== src/MemoryCache/Clearing.antt =====
-- `clearTask`, `clearWorkspace`, `clearLease` and `invalidatePolicyHash` of the cache of
-- apps/desktop-agent/src/memory/memory-cache-store.ts. The four have one body, each with its own
-- index. Each awaits every removal: what is left of a call then is a `Clearing`.
use nexus_os_ai_workspace.Base.{
  ℕ, ◌+◌, String, none, some, List, [], ◌∷◌, if◌then◌else◌, get, delete,
}
use nexus_os_ai_workspace.MemoryCache.{CacheStore, Index, remove}

-- What a method clears the entries of.
pub data Kind : Type 0 where
  of_task of_workspace of_lease of_policy : Kind

-- Suspended in the removal of a key, with the keys still to visit and the removals so far.
pub record Clearing : Type 0 where
  pub kind : Kind
  pub owner : String
  pub rest : List String
  pub cleared : ℕ

pub data Progress : Type 0 where
  finished : (cleared : ℕ) → Progress
  suspended : Clearing → Progress

module _ {ℓ} {V : Type ℓ} where
  abbrev pub index_of : Kind → CacheStore V → Index
  index_of of_task c = c.task_index
  index_of of_workspace c = c.workspace_index
  index_of of_lease c = c.lease_index
  index_of of_policy c = c.policy_index

  -- The owner goes from the index, once its keys are visited.
  unfoldable pub drop_owner : Kind → String → CacheStore V → CacheStore V
  drop_owner of_task owner c = record c { task_index = delete owner c.task_index }
  drop_owner of_workspace owner c = record c { workspace_index = delete owner c.workspace_index }
  drop_owner of_lease owner c = record c { lease_index = delete owner c.lease_index }
  drop_owner of_policy owner c = record c { policy_index = delete owner c.policy_index }

  -- The loop over the keys up to the next removal, where it suspends.
  unfoldable pub clear_on : Kind → String → ℕ → List String → CacheStore V → CacheStore V × Progress
  unfolding drop_owner remove
  clear_on kind owner cleared [] c = (drop_owner kind owner c, finished cleared)
  clear_on kind owner cleared (k ∷ ks) c =
      let (c', removed) = remove c k in
      (
        c',
        suspended (record {
          kind = kind;
          owner = owner;
          rest = ks;
          cleared = if removed then cleared + 1 else cleared;
        }),
      )

  unfoldable pub resume_clearing : Clearing → CacheStore V → CacheStore V × Progress
  unfolding clear_on
  resume_clearing w c = clear_on w.kind w.owner w.cleared w.rest c

  -- A clearing method up to its first removal.
  unfoldable pub begin_clearing : Kind → CacheStore V → String → CacheStore V × Progress
  unfolding clear_on
  begin_clearing kind c owner = elim (get owner (index_of kind c)) [
    | none ↦ (c, finished 0)
    | some keys ↦ clear_on kind owner 0 keys c
  ]

  abbrev pub clear_task : CacheStore V → String → CacheStore V × Progress
  clear_task = begin_clearing of_task

  abbrev pub clear_workspace : CacheStore V → String → CacheStore V × Progress
  clear_workspace = begin_clearing of_workspace

  abbrev pub clear_lease : CacheStore V → String → CacheStore V × Progress
  clear_lease = begin_clearing of_lease

  abbrev pub invalidate_policy_hash : CacheStore V → String → CacheStore V × Progress
  invalidate_policy_hash = begin_clearing of_policy
