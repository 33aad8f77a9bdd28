-- ===== src/MemoryCache.antt =====
-- The agent's memory cache: class `MemoryCacheStore` of
-- apps/desktop-agent/src/memory/memory-cache-store.ts. This file has the entries, their indices and
-- `remove`; the children have the other methods. `V` holds the payloads. Times are ISO texts, as in
-- the source, compared as texts.
pub mod Eviction
pub mod Access
pub mod Clearing
pub mod Removals
pub mod Sizes
pub mod Segments
pub mod Ceiling
pub mod Indices
pub mod Left
pub mod Listing
pub mod Waiting
pub mod Revocation
pub mod Reads
use Prim.Native.String.{compare}
use Prim.Native.Nat.{Ordering}
use nexus_os_ai_workspace.Base.{
  ℕ, ◌+◌, ◌-◌, String, Bool, true, false, not, Option, none, some, List, [], ◌∷◌, ◌++◌,
  if◌then◌else◌, nonempty, ◌==◌, get, put, delete, get_or, includes, filter,
}

pub record CacheEntry {ℓ} (V : Type ℓ) : Type ℓ where
  pub key : String
  pub payload : V
  pub task_id : String
  pub workspace_id : String
  pub scope : String
  pub policy_hash : Option String
  pub lease_id : Option String
  pub created_at : String
  pub expires_at : String
  pub access_count : ℕ
  pub size_bytes : ℕ
  pub last_accessed_at : String

-- The keys of the entries of a task, workspace, lease or policy.
abbrev pub Index : Type 0
Index = List (String × List String)

pub record CacheStore {ℓ} (V : Type ℓ) : Type ℓ where
  pub entries : List (String × CacheEntry V)
  pub task_index : Index
  pub workspace_index : Index
  pub lease_index : Index
  pub policy_index : Index
  pub total_size_bytes : ℕ
  pub total_hits : ℕ
  pub total_misses : ℕ
  pub total_evictions : ℕ
  pub emergency_evictions : ℕ
  pub max_entries : ℕ
  pub max_memory_bytes : ℕ
  pub max_entry_size_bytes : ℕ

-- `s > t` for texts.
abbrev pub text_after : String → String → Bool
text_after s t = elim (compare s t) [ Ordering.gt ↦ true | _ ↦ false ]

unfoldable pub add_index : Index → String → String → Index
add_index index owner key =
    let keys = get_or (get owner index) [] in
    put owner (if includes key keys then keys else keys ++ key ∷ []) index

-- An owner's set goes with its last key.
unfoldable pub set_keys : Index → String → List String → Index
set_keys index owner [] = delete owner index
set_keys index owner (k ∷ keys) = put owner (k ∷ keys) index

unfoldable pub remove_index : Index → String → String → Index
unfolding set_keys
remove_index index owner key = elim (get owner index) [
  | none ↦ index
  | some keys ↦ set_keys index owner (filter (λ k. not (k == key)) keys)
]

-- `if (owner) this.addIndex(…)` for an optional owner, and the same of `removeIndex`.
unfoldable pub add_optional : Index → Option String → String → Index
unfolding add_index
add_optional index none key = index
add_optional index (some owner) key = if nonempty owner then add_index index owner key else index

unfoldable pub remove_optional : Index → Option String → String → Index
unfolding remove_index
remove_optional index none key = index
remove_optional index (some owner) key =
    if nonempty owner then remove_index index owner key else index

module _ {ℓ} {V : Type ℓ} where
  unfoldable pub new_store : (entries bytes entry_bytes : ℕ) → CacheStore V
  new_store entries bytes entry_bytes = record {
    entries = [];
    task_index = [];
    workspace_index = [];
    lease_index = [];
    policy_index = [];
    total_size_bytes = 0;
    total_hits = 0;
    total_misses = 0;
    total_evictions = 0;
    emergency_evictions = 0;
    max_entries = entries;
    max_memory_bytes = bytes;
    max_entry_size_bytes = entry_bytes;
  }

  -- The end of `remove`, on a key that maps to this entry. The total stops at 0.
  unfoldable pub remove_entry : CacheStore V → String → CacheEntry V → CacheStore V
  unfolding remove_index remove_optional
  remove_entry c key e = record c {
    entries = delete key c.entries;
    total_size_bytes = c.total_size_bytes - e.size_bytes;
    task_index = remove_index c.task_index e.task_id key;
    workspace_index = remove_index c.workspace_index e.workspace_id key;
    lease_index = remove_optional c.lease_index e.lease_id key;
    policy_index = remove_optional c.policy_index e.policy_hash key;
  }

  unfoldable pub remove : CacheStore V → String → CacheStore V × Bool
  unfolding remove_entry
  remove c key = elim (get key c.entries) [
    | none ↦ (c, false)
    | some e ↦ (remove_entry c key e, true)
  ]

  -- The end of `put`: the entry, its size and its indices.
  unfoldable pub store_entry : CacheStore V → CacheEntry V → CacheStore V
  unfolding add_index add_optional
  store_entry c e = record c {
    entries = put e.key e c.entries;
    total_size_bytes = c.total_size_bytes + e.size_bytes;
    task_index = add_index c.task_index e.task_id e.key;
    workspace_index = add_index c.workspace_index e.workspace_id e.key;
    lease_index = add_optional c.lease_index e.lease_id e.key;
    policy_index = add_optional c.policy_index e.policy_hash e.key;
  }
