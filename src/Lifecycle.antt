-- ===== src/Lifecycle.antt =====
-- The agent's lifecycle: apps/desktop-agent/src/lifecycle/index.ts. A refused transition throws and
-- leaves the state: `none`. The first argument stands for `currentState`.
use nexus_os_ai_workspace.Base.{
  ◌≡◌, refl, Bool, true, false, ◌||◌, Option, none, some, List, [], ◌∷◌, if◌then◌else◌, arith,
}

pub data AgentLifecycleState : Type 0 where
  starting ready degraded stopping stopped failed : AgentLifecycleState

unfoldable pub same_lifecycle : AgentLifecycleState → AgentLifecycleState → Bool
same_lifecycle starting starting = true
same_lifecycle ready ready = true
same_lifecycle degraded degraded = true
same_lifecycle stopping stopping = true
same_lifecycle stopped stopped = true
same_lifecycle failed failed = true
same_lifecycle _ _ = false

unfoldable pub valid_transitions : AgentLifecycleState → List AgentLifecycleState
valid_transitions starting = ready ∷ failed ∷ stopping ∷ []
valid_transitions ready = degraded ∷ stopping ∷ failed ∷ []
valid_transitions degraded = ready ∷ stopping ∷ failed ∷ []
valid_transitions stopping = stopped ∷ failed ∷ []
valid_transitions stopped = starting ∷ []
valid_transitions failed = starting ∷ stopped ∷ []

-- `Array.prototype.includes` on states.
unfoldable pub includes_state : List AgentLifecycleState → AgentLifecycleState → Bool
unfolding same_lifecycle
includes_state [] s = false
includes_state (t ∷ ts) s = same_lifecycle t s || includes_state ts s

unfoldable pub transition_to :
    AgentLifecycleState → AgentLifecycleState → Option AgentLifecycleState
unfolding valid_transitions includes_state
transition_to current next =
    if includes_state (valid_transitions current) next then some next else none

-- The states in which the admission controller refuses every task.
unfoldable pub is_unsafe : AgentLifecycleState → Bool
is_unsafe stopping = true
is_unsafe stopped = true
is_unsafe failed = true
is_unsafe _ = false

abbrev state_after : AgentLifecycleState → Option AgentLifecycleState → AgentLifecycleState
state_after current none = current
state_after current (some next) = next

-- The state after some attempts at a transition, thrown errors caught.
abbrev pub attempt_all : AgentLifecycleState → List AgentLifecycleState → AgentLifecycleState
attempt_all current [] = current
attempt_all current (next ∷ rest) =
    attempt_all (state_after current (transition_to current next)) rest

stays_unsafe :
    (current next : AgentLifecycleState)
    → is_unsafe current ≡ true
    → same_lifecycle next starting ≡ false
    → is_unsafe (state_after current (transition_to current next)) ≡ true
unfolding transition_to is_unsafe same_lifecycle
stays_unsafe stopping starting u h = cc
stays_unsafe stopping ready u h = refl
stays_unsafe stopping degraded u h = refl
stays_unsafe stopping stopping u h = refl
stays_unsafe stopping stopped u h = refl
stays_unsafe stopping failed u h = refl
stays_unsafe stopped starting u h = cc
stays_unsafe stopped ready u h = refl
stays_unsafe stopped degraded u h = refl
stays_unsafe stopped stopping u h = refl
stays_unsafe stopped stopped u h = refl
stays_unsafe stopped failed u h = refl
stays_unsafe failed starting u h = cc
stays_unsafe failed ready u h = refl
stays_unsafe failed degraded u h = refl
stays_unsafe failed stopping u h = refl
stays_unsafe failed stopped u h = refl
stays_unsafe failed failed u h = refl
stays_unsafe starting next u h = cc
stays_unsafe ready next u h = cc
stays_unsafe degraded next u h = cc

-- An agent that is stopping, stopped or failed is in one of these states after any attempts at
-- transitions in which STARTING is not asked for.
pub unsafe_until_started :
    (current : AgentLifecycleState) (attempts : List AgentLifecycleState)
    → is_unsafe current ≡ true
    → includes_state attempts starting ≡ false
    → is_unsafe (attempt_all current attempts) ≡ true
unfolding includes_state
unsafe_until_started current [] u h = u
unsafe_until_started current (next ∷ rest) u h =
    unsafe_until_started (state_after current (transition_to current next)) rest
      (stays_unsafe current next u (ground arith)) (ground arith)
