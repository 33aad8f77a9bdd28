-- ===== src/Directory.antt =====
-- The directory of agents: class `AgentDirectoryService` of
-- services/backend/src/agents/agent-directory.ts, with the schemas of
-- packages/contracts/src/acp/directory.ts. Loads, from 0 to 1 in the source, are whole parts of
-- `full_load`. What a call publishes to the event stream is part of its result.
pub mod Lists
pub mod Eligible
pub mod Capacity
pub mod Runs
use nexus_os_ai_workspace.Base.{
  ℕ, ◌+◌, String, Bool, true, false, not, ◌&&◌, ◌||◌, Option, none, some, List, [], ◌∷◌, ◌++◌,
  if◌then◌else◌, leb, ltb, length, filter, any, includes, ◌==◌, ◌⊕◌, get, put, get_or, is_some,
  utf16_length, nonempty,
}
use nexus_os_ai_workspace.Host.{Host}
use nexus_os_ai_workspace.Events.Envelope.{PublishInput, agent_status_changed}
use Lists.{every, unique, values, keep_entries, sort_by}

pub data AgentRole : Type 0 where
  coordinator specialist supervisor worker : AgentRole

pub data AgentStatus : Type 0 where
  registered available busy unhealthy retired : AgentStatus

abbrev pub full_load : ℕ
full_load = 1000000

pub record AgentRegistration : Type 0 where
  pub agent_id : String
  pub tenant_id : String
  pub workspace_scope : List String
  pub role : AgentRole
  pub capabilities : List String
  pub version : String
  pub metadata : List (String × String)
  pub registered_at : String

pub record AgentHeartbeat : Type 0 where
  pub agent_id : String
  pub tenant_id : String
  pub status : AgentStatus
  pub current_load : ℕ
  pub timestamp : String
  pub active_task_ids : List String

pub record AgentRecord : Type 0 where
  pub agent_id : String
  pub tenant_id : String
  pub workspace_scope : List String
  pub role : AgentRole
  pub capabilities : List String
  pub version : String
  pub metadata : List (String × String)
  pub registered_at : String
  pub last_heartbeat : String
  pub status : AgentStatus
  pub current_load : ℕ
  pub active_task_ids : List String

pub record AgentDiscoveryQuery : Type 0 where
  pub tenant_id : String
  pub workspace_id : String
  pub required_capabilities : List String
  pub preferred_role : Option AgentRole

-- The payload of an event.
pub record StatusChanged : Type 0 where
  pub agent_id : String
  pub tenant_id : String
  pub workspace_scope : List String
  pub role : AgentRole
  pub status : AgentStatus
  pub current_load : ℕ
  pub active_task_count : ℕ
  pub last_heartbeat : String

pub record Directory : Type 0 where
  pub agents : List (String × AgentRecord)
  pub heartbeat_ttl_ms : ℕ
  pub max_agents_per_tenant : ℕ
  pub has_event_bus : Bool

pub data RegisterOutcome : Type 0 where
  registered_as : AgentRecord → RegisterOutcome
  invalid_registration limit_exceeded : RegisterOutcome

abbrev pub same_role : AgentRole → AgentRole → Bool
same_role coordinator coordinator = true
same_role specialist specialist = true
same_role supervisor supervisor = true
same_role worker worker = true
same_role _ _ = false

abbrev pub takes_work : AgentStatus → Bool
takes_work available = true
takes_work registered = true
takes_work _ = false

abbrev pub is_retired : AgentStatus → Bool
is_retired retired = true
is_retired _ = false

-- `z.string().min(1).max(n)`.
abbrev text_up_to : ℕ → String → Bool
text_up_to n s = nonempty s && leb (utf16_length s) n

-- `z.array(z.string().min(1)).min(1)`.
abbrev some_texts : List String → Bool
some_texts xs = ltb 0 (length xs) && every nonempty xs

unfoldable pub registration_ok : Host → AgentRegistration → Bool
unfolding utf16_length
registration_ok host r =
    text_up_to 128 r.agent_id
    && host.is_uuid r.tenant_id
    && some_texts r.workspace_scope
    && some_texts r.capabilities
    && text_up_to 64 r.version
    && host.is_datetime r.registered_at

unfoldable pub heartbeat_ok : Host → AgentHeartbeat → Bool
unfolding utf16_length
heartbeat_ok host h =
    text_up_to 128 h.agent_id
    && host.is_uuid h.tenant_id
    && leb h.current_load full_load
    && host.is_datetime h.timestamp

unfoldable pub composite_key : String → String → String
composite_key tenant agent = ◌⊕◌ tenant (◌⊕◌ "::" agent)

abbrev pub of_tenant : String → AgentRecord → Bool
of_tenant tenant a = a.tenant_id == tenant

unfoldable pub list_agents : Directory → String → List AgentRecord
list_agents d tenant = filter (of_tenant tenant) (values d.agents)

-- The event of `publishAgentStatusChanged`, if a bus is set.
unfoldable pub status_changed : Directory → AgentRecord → Option (PublishInput StatusChanged)
status_changed d a =
    if d.has_event_bus
    then some (record {
      schema_id = agent_status_changed;
      tenant_id = a.tenant_id;
      workspace_id = none;
      correlation_id = some a.agent_id;
      producer_id = some "agent-directory";
      payload = record {
        agent_id = a.agent_id;
        tenant_id = a.tenant_id;
        workspace_scope = a.workspace_scope;
        role = a.role;
        status = a.status;
        current_load = a.current_load;
        active_task_count = length a.active_task_ids;
        last_heartbeat = a.last_heartbeat;
      };
      event_id = none;
      occurred_at = none;
      skip_redaction = false;
    })
    else none

-- A registration keeps the heartbeat, status, load and tasks of the agent that it replaces.
unfoldable pub record_of : AgentRegistration → Option AgentRecord → AgentRecord
record_of r existing = record {
  agent_id = r.agent_id;
  tenant_id = r.tenant_id;
  workspace_scope = r.workspace_scope;
  role = r.role;
  capabilities = unique [] r.capabilities;
  version = r.version;
  metadata = r.metadata;
  registered_at = r.registered_at;
  last_heartbeat = elim existing [ none ↦ r.registered_at | some a ↦ a.last_heartbeat ];
  status = elim existing [ none ↦ available | some a ↦ a.status ];
  current_load = elim existing [ none ↦ 0 | some a ↦ a.current_load ];
  active_task_ids = elim existing [ none ↦ [] | some a ↦ a.active_task_ids ];
}

unfoldable pub register_agent :
    Host
    → Directory
    → AgentRegistration
    → Directory × RegisterOutcome × Option (PublishInput StatusChanged)
unfolding registration_ok composite_key list_agents record_of status_changed
register_agent host d r =
    let key = composite_key r.tenant_id r.agent_id in
    let existing = get key d.agents in
    let a = record_of r existing in
    if not (registration_ok host r)
    then (d, invalid_registration, none)
    else if leb d.max_agents_per_tenant (length (list_agents d r.tenant_id))
        && not (is_some existing)
    then (d, limit_exceeded, none)
    else (record d { agents = put key a d.agents }, registered_as a, status_changed d a)

abbrev pub beaten : AgentHeartbeat → AgentRecord → AgentRecord
beaten h a = record a {
  last_heartbeat = h.timestamp;
  status = h.status;
  current_load = h.current_load;
  active_task_ids = h.active_task_ids;
}

-- `none`: the heartbeat does not parse, and the call throws.
unfoldable pub record_heartbeat :
    Host
    → Directory
    → AgentHeartbeat
    → Directory × Option Bool × Option (PublishInput StatusChanged)
unfolding heartbeat_ok composite_key status_changed
record_heartbeat host d h =
    let key = composite_key h.tenant_id h.agent_id in
    if heartbeat_ok host h
    then elim (get key d.agents) [
      | none ↦ (d, some false, none)
      | some a ↦ (
        record d { agents = put key (beaten h a) d.agents },
        some true,
        status_changed d (beaten h a),
      )
    ]
    else (d, none, none)

-- `now - heartbeat > limit`, false for a heartbeat that is no date.
unfoldable pub is_older : Host → (now limit : ℕ) → AgentRecord → Bool
is_older host now limit a = elim (host.date_ms a.last_heartbeat) [
  | none ↦ false
  | some t ↦ ltb (t + limit) now
]

abbrev pub in_scope : AgentDiscoveryQuery → AgentRecord → Bool
in_scope q a =
    of_tenant q.tenant_id a
    && (includes "*" a.workspace_scope || includes q.workspace_id a.workspace_scope)

abbrev pub has_role : Option AgentRole → AgentRecord → Bool
has_role none a = true
has_role (some role) a = same_role a.role role

abbrev pub fits : AgentDiscoveryQuery → AgentRecord → Bool
fits q a =
    takes_work a.status
    && every (λ cap. includes cap a.capabilities) q.required_capabilities
    && has_role q.preferred_role a

-- The loop marks the agents in scope whose heartbeat is too old.
unfoldable pub mark_stale :
    Host → ℕ → ℕ → AgentDiscoveryQuery → List (String × AgentRecord) → List (String × AgentRecord)
unfolding is_older
mark_stale host now ttl q [] = []
mark_stale host now ttl q ((k, a) ∷ m) =
    let rest = mark_stale host now ttl q m in
    if in_scope q a && is_older host now ttl a
    then (k, record a { status = unhealthy }) ∷ rest
    else (k, a) ∷ rest

unfoldable pub is_eligible : Host → ℕ → ℕ → AgentDiscoveryQuery → AgentRecord → Bool
unfolding is_older
is_eligible host now ttl q a = in_scope q a && not (is_older host now ttl a) && fits q a

unfoldable pub find_eligible_agents :
    Host → (now : ℕ) → Directory → AgentDiscoveryQuery → Directory × List AgentRecord
unfolding mark_stale is_eligible sort_by
find_eligible_agents host now d q = (
  record d { agents = mark_stale host now d.heartbeat_ttl_ms q d.agents },
  sort_by (λ a. a.current_load)
      (filter (is_eligible host now d.heartbeat_ttl_ms q) (values d.agents)),
)

unfoldable pub get_agent : Directory → String → String → Option AgentRecord
unfolding composite_key
get_agent d tenant agent = get (composite_key tenant agent) d.agents

unfoldable pub retire_agent : Directory → String → String → Directory × Bool
unfolding composite_key
retire_agent d tenant agent =
    let key = composite_key tenant agent in
    elim (get key d.agents) [
      | none ↦ (d, false)
      | some a ↦ (record d { agents = put key (record a { status = retired }) d.agents }, true)
    ]

unfoldable pub is_prunable : Host → (now max_age : ℕ) → AgentRecord → Bool
unfolding is_older
is_prunable host now max_age a = is_retired a.status || is_older host now max_age a

unfoldable pub prune_stale_agents : Host → (now max_age : ℕ) → Directory → Directory × ℕ
unfolding is_prunable
prune_stale_agents host now max_age d = (
  record d { agents = keep_entries (λ a. not (is_prunable host now max_age a)) d.agents },
  length (filter (is_prunable host now max_age) (values d.agents)),
)

unfoldable pub clear : Directory → Directory
clear d = record d { agents = [] }
