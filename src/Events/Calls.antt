-- ===== src/Events/Calls.antt =====
-- Sequences of calls on the bus of services/backend/src/events/stream-event-bus.ts, with the log of
-- what they publish to a tenant since the last `clear` that covers it.
use nexus_os_ai_workspace.Base.{
  ℕ, String, Bool, true, not, ◌||◌, Option, none, some, List, [], ◌∷◌, ◌++◌, if◌then◌else◌, ◌==◌,
  nonempty,
}
use nexus_os_ai_workspace.Host.{Host}
use nexus_os_ai_workspace.Events.Envelope.{StreamEvent, Codec, Draw, PublishInput}
use nexus_os_ai_workspace.Events.Bus.{
  EventBus, PublishOutcome, published, publish, evaluate_replay, get_replay_events, clear,
}
use nexus_os_ai_workspace.Events.Subscriptions.{SubscriptionOptions, subscribe, unsubscribe}

-- A call on the bus.
pub data Call {ℓ} (P : Type ℓ) : Type ℓ where
  publish_call : Draw → PublishInput P → Call P
  evaluate_call : (tenant : String) → (cursor : Option String) → (now : ℕ) → Call P
  read_call : (tenant : String) → (now : ℕ) → Call P
  subscribe_call : (id : String) → (now : ℕ) → SubscriptionOptions P → Call P
  unsubscribe_call : (tenant id : String) → Call P
  clear_call : Option String → Call P

-- Whether `clear` with this argument covers a tenant.
abbrev pub covers : Option String → String → Bool
covers none tenant = true
covers (some t) tenant = not (nonempty t) || t == tenant

module _ {ℓ} {P : Type ℓ} where
  -- The log of a tenant: its published events, in the order of their publication.
  abbrev pub logged : String → PublishOutcome P → List (StreamEvent P)
  logged tenant (published e) = if e.tenant_id == tenant then e ∷ [] else []
  logged tenant _ = []

module _ {ℓ} {P : Type ℓ} (host : Host) (codec : Codec P) where
  unfoldable pub step : EventBus P → Call P → EventBus P
  unfolding publish evaluate_replay get_replay_events subscribe unsubscribe clear
  step bus (publish_call draw input) = (publish host codec draw bus input).0
  step bus (evaluate_call tenant cursor now) = (evaluate_replay host bus tenant cursor now).0
  step bus (read_call tenant now) = (get_replay_events host bus tenant now).0
  step bus (subscribe_call id now options) = (subscribe host id now bus options).0
  step bus (unsubscribe_call tenant id) = (unsubscribe bus tenant id).0
  step bus (clear_call tenant) = clear bus tenant

  -- What a call does to the log of a tenant, which has what was published to it since the last
  -- `clear` that covers it: that call starts the numbers anew, within the same epoch.
  unfoldable pub log_since_clear :
      String → EventBus P → List (StreamEvent P) → Call P → List (StreamEvent P)
  unfolding publish
  log_since_clear tenant bus log (publish_call draw input) =
      log ++ logged tenant (publish host codec draw bus input).1
  log_since_clear tenant bus log (clear_call t) = if covers t tenant then [] else log
  log_since_clear tenant bus log _ = log

  -- The bus after some calls, and what they published to a tenant since the last `clear` that covers
  -- it.
  unfoldable pub run :
      String → EventBus P → List (StreamEvent P) → List (Call P) → EventBus P × List (StreamEvent P)
  unfolding step log_since_clear
  run tenant bus log [] = (bus, log)
  run tenant bus log (c ∷ cs) = run tenant (step bus c) (log_since_clear tenant bus log c) cs
