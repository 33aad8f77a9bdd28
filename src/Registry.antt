-- ===== src/Registry.antt =====
-- The agent's registries: apps/desktop-agent/src/registry/capability-registry.ts and
-- runtime-registry.ts. The maps are association lists in insertion order; a thrown error is `thrown`,
-- and leaves the registry.
use nexus_os_ai_workspace.Base.{
  String, ◌≡◌, ◌⊎◌, inl, inr, Bool-cases, Bool, true, false, not, ◌&&◌, Option, some, List, [], ◌∷◌,
  map, if◌then◌else◌, ◌==◌, get, put, get-put, is_some, Result, returned, thrown, All, arith,
}

pub data CapabilityCategory : Type 0 where
  system runtime device network : CapabilityCategory

pub record AgentCapability : Type 0 where
  pub capability_id : String
  pub category : CapabilityCategory
  pub description : String
  pub is_dangerous : Bool
  pub required_scope : Option String

pub data RegistryError : Type 0 where
  already_registered executable_denied : String → RegistryError

abbrev Capabilities : Type 0
Capabilities = List (String × AgentCapability)

unfoldable pub has_capability : Capabilities → String → Bool
has_capability m id = is_some (get id m)

unfoldable pub register_capability :
    Capabilities → AgentCapability → Result RegistryError Capabilities
unfolding has_capability
register_capability m c =
    if has_capability m c.capability_id
    then thrown (already_registered c.capability_id)
    else returned (put c.capability_id c m)

unfoldable pub list_capability_ids : Capabilities → List String
list_capability_ids m = map (λ e. e.0) m

pub record ToolRuntimeDescriptor : Type 0 where
  pub runtime_id : String
  pub runtime_category : String
  pub version : String
  pub is_executable : Bool
  pub supported_actions : List String

abbrev ExecutionPolicy : Type 0
ExecutionPolicy = ToolRuntimeDescriptor → Bool

abbrev pub foundation_policy : ExecutionPolicy
foundation_policy d = false

abbrev Runtimes : Type 0
Runtimes = List (String × ToolRuntimeDescriptor)

unfoldable pub register_runtime :
    ExecutionPolicy → Runtimes → ToolRuntimeDescriptor → Result RegistryError Runtimes
register_runtime policy m d =
    if is_some (get d.runtime_id m)
    then thrown (already_registered d.runtime_id)
    else if d.is_executable && not (policy d)
    then thrown (executable_denied d.runtime_id)
    else returned (put d.runtime_id d m)

abbrev kept : Runtimes → Result RegistryError Runtimes → Runtimes
kept m (returned m') = m'
kept m (thrown e) = m

-- Registrations one after another, thrown errors caught.
abbrev pub register_all : ExecutionPolicy → Runtimes → List ToolRuntimeDescriptor → Runtimes
register_all policy m [] = m
register_all policy m (d ∷ ds) = register_all policy (kept m (register_runtime policy m d)) ds

-- A runtime that may execute is one that the policy allows.
abbrev pub Authorised : ExecutionPolicy → String × ToolRuntimeDescriptor → Type 0
Authorised policy (id, d) = (d.is_executable ≡ false) ⊎ (policy d ≡ true)

All-put :
    (policy : ExecutionPolicy) (d : ToolRuntimeDescriptor) (m : Runtimes)
    → (d.is_executable ≡ false) ⊎ (policy d ≡ true)
    → All (Authorised policy) m
    → All (Authorised policy) (put d.runtime_id d m)
unfolding put
All-put policy d [] h a = (h, tt)
All-put policy d ((j, e) ∷ m) h (p, a) = let rest = All-put policy d m h a in ground (arith, rest)

register_runtime-Authorised :
    (policy : ExecutionPolicy) (m : Runtimes) (d : ToolRuntimeDescriptor)
    → All (Authorised policy) m
    → All (Authorised policy) (kept m (register_runtime policy m d))
unfolding register_runtime
register_runtime-Authorised policy m d a = elim (Bool-cases (is_some (get d.runtime_id m))) [
  | inl taken ↦ rw taken a
  | inr free ↦ elim (Bool-cases (d.is_executable && not (policy d))) [
    | inl denied ↦ rw (free, denied) a
    | inr granted ↦ rw (free, granted) (All-put policy d m (ground arith) a)
  ]
]

-- Whatever registrations are attempted on an empty registry, every runtime in it that may execute
-- is one that the execution policy allows.
pub register_all-Authorised :
    (policy : ExecutionPolicy) (ds : List ToolRuntimeDescriptor)
    → All (Authorised policy) (register_all policy [] ds)
register_all-Authorised policy ds = registered policy [] ds tt
  where
    registered :
        (policy : ExecutionPolicy) (m : Runtimes) (ds : List ToolRuntimeDescriptor)
        → All (Authorised policy) m
        → All (Authorised policy) (register_all policy m ds)
    registered policy m [] a = a
    registered policy m (d ∷ ds) a =
        registered policy (kept m (register_runtime policy m d)) ds
          (register_runtime-Authorised policy m d a)

-- Registering a capability fails exactly when its identifier is taken; otherwise the registry
-- afterwards finds it under its identifier, and finds every other capability as before.
pub register_capability-get :
    (m : Capabilities) (c : AgentCapability)
    → ((has_capability m c.capability_id ≡ true)
        × (register_capability m c ≡ thrown (already_registered c.capability_id)))
      ⊎ ((m' : Capabilities) × (register_capability m c ≡ returned m')
          × ((id : String) → get id m' ≡ (if c.capability_id == id then some c else get id m)))
unfolding register_capability
register_capability-get m c = elim (Bool-cases (has_capability m c.capability_id)) [
  | inl taken ↦ inl (taken, ground arith)
  | inr free ↦ inr (put c.capability_id c m, ground arith, λ id. get-put c.capability_id id c m)
]
