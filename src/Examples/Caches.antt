-- ===== src/Examples/Caches.antt =====
-- The memory cache and the agent directory at concrete entries.

use Prim.Native.String.{count as char_count, compare}
use nexus_os_ai_workspace.Base.{
  String, ◌≡◌, refl, true, false, All, none, some, List, [], ◌∷◌, eqb, eqb_iff, count, get, put,
  delete,
}
use nexus_os_ai_workspace.Host.{Host}
use nexus_os_ai_workspace.Examples.Hosts.{dot_host}
use nexus_os_ai_workspace.MemoryCache.{
  CacheEntry, CacheStore, new_store, text_after, remove, remove_entry, store_entry, add_index,
  add_optional, remove_index, remove_optional, set_keys,
}
use nexus_os_ai_workspace.MemoryCache.Access.{
  ReadContext, is_bound_to, touched, begin_put, finish_put, get_entry, get_status,
}
use nexus_os_ai_workspace.MemoryCache.Segments.{
  Segment, begin_segment, finish_segment, resume_segment, clearing_segment, resume_clearing_segment,
  status_segment, new_cache, resume_first_clearing, step, run,
}
use nexus_os_ai_workspace.MemoryCache.Sizes.{Bounded}
use nexus_os_ai_workspace.MemoryCache.Ceiling.{run-Bounded}
use nexus_os_ai_workspace.MemoryCache.Revocation.{run-revokes}
use nexus_os_ai_workspace.MemoryCache.Waiting.{Free, ends}
use nexus_os_ai_workspace.MemoryCache.Clearing.{
  of_lease, drop_owner, clear_on, resume_clearing, begin_clearing,
}
use nexus_os_ai_workspace.MemoryCache.Eviction.{
  check_memory_pressure, ensure_capacity, evict_expired, sweep_on, make_room,
}
use nexus_os_ai_workspace.MemoryCache.Reads.{get_entry-Isolated}
use nexus_os_ai_workspace.Directory.{
  AgentRegistration, AgentDiscoveryQuery, Directory, coordinator, is_eligible, find_eligible_agents,
}
use nexus_os_ai_workspace.Directory.Lists.{values, SortedBy}
use nexus_os_ai_workspace.Directory.Eligible.{Eligible, is_eligible_iff, find_eligible_agents-exact}
use nexus_os_ai_workspace.Directory.Capacity.{UuidSized, IsWithin}
use nexus_os_ai_workspace.Directory.Runs.{
  DirectoryCall, register_call, find_call, new_directory, directory-IsWithin,
}
use nexus_os_ai_workspace.Directory.Runs

abbrev note : CacheEntry String
note = record {
  key = "k1";
  payload = "text";
  task_id = "t";
  workspace_id = "w";
  scope = "s";
  policy_hash = some "p";
  lease_id = some "l";
  created_at = "2026-01-01";
  expires_at = "2026-01-09";
  access_count = 0;
  size_bytes = 40;
  last_accessed_at = "2026-01-01";
}

-- Two writers of one key, both past the check for it.
abbrev racing : List (Segment String)
racing =
    begin_segment note
    ∷ begin_segment note
    ∷ finish_segment "2026-01-02" false note
    ∷ finish_segment "2026-01-02" false note
    ∷ resume_segment
    ∷ []

run-Bounded_example : Bounded 100 (run compare (new_cache 10 100 50) racing).store
run-Bounded_example = run-Bounded compare 10 100 50 racing

-- A lease is cleared while the status is read.
abbrev waiting : List (Segment String)
waiting =
    begin_segment note
    ∷ finish_segment "2026-01-02" false note
    ∷ clearing_segment of_lease "l"
    ∷ status_segment false
    ∷ []

waiting-ends :
    ends (run compare (new_cache 10 100 50) waiting) resume_clearing_segment ≡ some (of_lease, "l")
unfolding run step begin_put finish_put ensure_capacity evict_expired sweep_on make_room store_entry
    check_memory_pressure add_index add_optional begin_clearing clear_on remove remove_entry
    get_status resume_clearing new_store get put delete remove_index remove_optional set_keys
waiting-ends = refl

run-revokes_example :
    Free of_lease "l"
      (step compare (run compare (new_cache 10 100 50) waiting) resume_clearing_segment).store
unfolding step
run-revokes_example =
    run-revokes compare 10 100 50 waiting resume_clearing_segment of_lease "l"
      (tt, (refl, (tt, (tt, tt)))) waiting-ends

-- A `put` that finishes while the lease is cleared: its entry stays, and no index lists it.
abbrev overtaken : CacheStore String
overtaken =
    (run compare (new_cache 10 100 50) (
      begin_segment note
      ∷ finish_segment "2026-01-02" false note
      ∷ clearing_segment of_lease "l"
      ∷ finish_segment "2026-01-02" false note
      ∷ resume_clearing_segment
      ∷ [])).store

overtaken-stays : (get "k1" overtaken.entries ≡ some note) × (overtaken.lease_index ≡ [])
unfolding run step begin_put finish_put ensure_capacity evict_expired sweep_on make_room store_entry
    check_memory_pressure add_index add_optional begin_clearing clear_on remove remove_entry
    resume_clearing resume_first_clearing drop_owner new_store get put delete remove_index
    remove_optional set_keys
overtaken-stays = (refl, refl)

abbrev reader : ReadContext
reader = record { task_id = "t"; workspace_id = "w"; lease_id = some "l"; policy_hash = some "p" }

abbrev holding : CacheStore String
holding = record (new_store 10 100 50) { entries = ("k1", note) ∷ [] }

handed_out : (get_entry "2026-01-02" holding "k1" reader).1 ≡ some (touched "2026-01-02" note)
unfolding get_entry get new_store
handed_out = refl

get_entry-Isolated_example :
    (f : CacheEntry String) × (get "k1" holding.entries ≡ some f)
    × (touched "2026-01-02" note ≡ touched "2026-01-02" f)
    × (text_after "2026-01-02" f.expires_at ≡ false)
    × (f.task_id ≡ "t")
    × (f.workspace_id ≡ "w")
    × (is_bound_to f.lease_id (some "l") ≡ true)
    × (is_bound_to f.policy_hash (some "p") ≡ true)
get_entry-Isolated_example =
    get_entry-Isolated "2026-01-02" "k1" holding reader (touched "2026-01-02" note) handed_out

-- Identifiers are the texts of 36 characters.
abbrev sized_host : Host
sized_host = record dot_host { is_uuid = λ s. eqb (char_count s) 36 }

sized_host-UuidSized : UuidSized sized_host
sized_host-UuidSized s h = (eqb_iff (char_count s) 36).0 h

abbrev agent : AgentRegistration
agent = record {
  agent_id = "a";
  tenant_id = "00000000-0000-4000-8000-00000000000a";
  workspace_scope = "*" ∷ [];
  role = coordinator;
  capabilities = "read" ∷ [];
  version = "1";
  metadata = [];
  registered_at = "x";
}

abbrev query : AgentDiscoveryQuery
query = record {
  tenant_id = "00000000-0000-4000-8000-00000000000a";
  workspace_id = "w";
  required_capabilities = "read" ∷ [];
  preferred_role = none;
}

abbrev directory_calls : List DirectoryCall
directory_calls =
    register_call agent ∷ register_call (record agent { agent_id = "b" }) ∷ find_call 3 query ∷ []

directory-IsWithin_example :
    IsWithin sized_host (Runs.run sized_host (new_directory 45000 1 false) directory_calls)
directory-IsWithin_example =
    directory-IsWithin sized_host 45000 1 false directory_calls sized_host-UuidSized

abbrev filled : Directory
filled = Runs.run sized_host (new_directory 45000 2 false) directory_calls

find_eligible_agents-exact_example :
    let found = (find_eligible_agents dot_host 3 filled query).1 in
    let test = is_eligible dot_host 3 filled.heartbeat_ttl_ms query in
    SortedBy (λ a. a.current_load) found
    × All (Eligible dot_host 3 filled.heartbeat_ttl_ms query) found
    × (count test found ≡ count test (values filled.agents))
find_eligible_agents-exact_example =
    find_eligible_agents-exact dot_host 3 filled query
      (is_eligible dot_host 3 filled.heartbeat_ttl_ms query)
      (λ a passes. (is_eligible_iff dot_host 3 filled.heartbeat_ttl_ms query a).0 passes)
