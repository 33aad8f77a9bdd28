-- ===== src/Directory/Runs.antt =====
-- Any calls on the directory of services/backend/src/agents/agent-directory.ts, and the limit that
-- they keep.
use nexus_os_ai_workspace.Base.{
  ℕ, ◌≤◌, ◌≡◌, refl, String, Bool, not, List, [], ◌∷◌, length-filter, count, All, arith,
}
use nexus_os_ai_workspace.Host.{Host}
use nexus_os_ai_workspace.Directory.{
  AgentRegistration, AgentHeartbeat, AgentRecord, AgentDiscoveryQuery, Directory, of_tenant,
  list_agents, register_agent, record_heartbeat, mark_stale, find_eligible_agents, retire_agent,
  is_prunable, prune_stale_agents, clear,
}
use nexus_os_ai_workspace.Directory.Lists.{values, keep_entries}
use nexus_os_ai_workspace.Directory.Capacity.{
  UuidSized, Entries, IsKeyed, IsWithin, register_agent-IsWithin, record_heartbeat-IsWithin,
  retire_agent-IsWithin,
}

pub data DirectoryCall : Type 0 where
  register_call : AgentRegistration → DirectoryCall
  heartbeat_call : AgentHeartbeat → DirectoryCall
  find_call : (now : ℕ) → AgentDiscoveryQuery → DirectoryCall
  retire_call : (tenant agent : String) → DirectoryCall
  prune_call : (now max_age : ℕ) → DirectoryCall
  clear_call : DirectoryCall

abbrev pub new_directory : (ttl limit : ℕ) → Bool → Directory
new_directory ttl limit bus = record {
  agents = [];
  heartbeat_ttl_ms = ttl;
  max_agents_per_tenant = limit;
  has_event_bus = bus;
}

module _ (host : Host) where
  unfoldable pub step : Directory → DirectoryCall → Directory
  unfolding register_agent record_heartbeat find_eligible_agents retire_agent prune_stale_agents
      clear
  step d (register_call r) = (register_agent host d r).0
  step d (heartbeat_call b) = (record_heartbeat host d b).0
  step d (find_call now q) = (find_eligible_agents host now d q).0
  step d (retire_call tenant agent) = (retire_agent d tenant agent).0
  step d (prune_call now max_age) = (prune_stale_agents host now max_age d).0
  step d clear_call = clear d

  unfoldable pub run : Directory → List DirectoryCall → Directory
  unfolding step
  run d [] = d
  run d (c ∷ cs) = run (step d c) cs

  Keyed-mark :
      (now ttl : ℕ) (q : AgentDiscoveryQuery) (m : Entries)
      → All (IsKeyed host) m
      → All (IsKeyed host) (mark_stale host now ttl q m)
  unfolding mark_stale
  Keyed-mark now ttl q [] h = tt
  Keyed-mark now ttl q ((k, a) ∷ m) h = ground (arith, h, Keyed-mark now ttl q m h.1)

  count-mark :
      (now ttl : ℕ) (q : AgentDiscoveryQuery) (t : String) (m : Entries)
      → count (of_tenant t) (values (mark_stale host now ttl q m)) ≡ count (of_tenant t) (values m)
  unfolding mark_stale
  count-mark now ttl q t [] = refl
  count-mark now ttl q t ((k, a) ∷ m) = ground (arith, count-mark now ttl q t m)

  Keyed-keep :
      (p : AgentRecord → Bool) (m : Entries)
      → All (IsKeyed host) m
      → All (IsKeyed host) (keep_entries p m)
  Keyed-keep p [] h = tt
  Keyed-keep p ((k, a) ∷ m) h = ground (arith, h, Keyed-keep p m h.1)

  count-keep :
      (p : AgentRecord → Bool) (t : String) (m : Entries)
      → count (of_tenant t) (values (keep_entries p m)) ≤ count (of_tenant t) (values m)
  count-keep p t [] = omega arith
  count-keep p t ((k, a) ∷ m) = ground (arith, count-keep p t m)

  -- Other entries with the keys of their agents, no more of any tenant.
  IsWithin-fewer :
      (d : Directory) (m : Entries)
      → All (IsKeyed host) m
      → ((t : String) → count (of_tenant t) (values m) ≤ count (of_tenant t) (values d.agents))
      → IsWithin host d
      → IsWithin host (record d { agents = m })
  unfolding list_agents
  IsWithin-fewer d m keyed fewer h = record {
    keyed = keyed;
    limited = λ t. omega (
      arith,
      h.limited t,
      fewer t,
      length-filter (of_tenant t) (values d.agents),
      length-filter (of_tenant t) (values m),
    );
  }

  step-IsWithin :
      (d : Directory) (c : DirectoryCall)
      → UuidSized host
      → IsWithin host d
      → IsWithin host (step d c)
  unfolding step find_eligible_agents prune_stale_agents clear
  step-IsWithin d (register_call r) sized h = register_agent-IsWithin host d r sized h
  step-IsWithin d (heartbeat_call b) sized h = record_heartbeat-IsWithin host d b h
  step-IsWithin d (find_call now q) sized h =
      IsWithin-fewer d (mark_stale host now d.heartbeat_ttl_ms q d.agents)
        (Keyed-mark now d.heartbeat_ttl_ms q d.agents h.keyed)
        (λ t. omega (arith, count-mark now d.heartbeat_ttl_ms q t d.agents)) h
  step-IsWithin d (retire_call tenant agent) sized h = retire_agent-IsWithin host d tenant agent h
  step-IsWithin d (prune_call now max_age) sized h =
      let fresh = λ (a : AgentRecord). not (is_prunable host now max_age a) in
      IsWithin-fewer d (keep_entries fresh d.agents) (Keyed-keep fresh d.agents h.keyed)
        (λ t. count-keep fresh t d.agents) h
  step-IsWithin d clear_call sized h = IsWithin-fewer d [] tt (λ t. omega arith) h

  run-IsWithin :
      (d : Directory) (cs : List DirectoryCall)
      → UuidSized host
      → IsWithin host d
      → IsWithin host (run d cs)
  unfolding run
  run-IsWithin d [] sized h = h
  run-IsWithin d (c ∷ cs) sized h = run-IsWithin (step d c) cs sized (step-IsWithin d c sized h)

-- If the identifiers that pass as UUIDs have 36 characters, then after any calls on a new directory
-- every agent stands under the key of its tenant and its identifier, and `listAgents` of any tenant
-- lists at most the configured number of agents.
pub directory-IsWithin :
    (host : Host) (ttl limit : ℕ) (bus : Bool) (cs : List DirectoryCall)
    → UuidSized host
    → IsWithin host (run host (new_directory ttl limit bus) cs)
unfolding list_agents
directory-IsWithin host ttl limit bus cs sized =
    run-IsWithin host (new_directory ttl limit bus) cs sized
      (record { keyed = tt; limited = λ t. omega arith })
