-- ===== src/Events/Subscriptions.antt =====
-- Subscribing and its end: `subscribe` of class `TenantStreamEventBus` of
-- services/backend/src/events/stream-event-bus.ts and the functions of the handle it returns. A
-- `Listener` says on which events the client's callbacks throw; they do not call the bus back, so
-- nothing queues up while a replay is delivered.
use nexus_os_ai_workspace.Base.{
  ℕ, String, Bool, true, false, not, Option, none, some, List, [], ◌∷◌, ◌++◌, if◌then◌else◌, leb,
  length, ◌==◌, get, put, delete, includes, filter,
}
use nexus_os_ai_workspace.Host.{Host}
use nexus_os_ai_workspace.Events.Cursors.{parse_stream_cursor}
use nexus_os_ai_workspace.Events.Envelope.{StreamEvent}
use nexus_os_ai_workspace.Events.Buffer.{last_sequence}
use nexus_os_ai_workspace.Events.Bus.{
  Subscriber, EventBus, ReplayEvaluation, no_replay, replay, reset, Delivery, subscribers_of,
  matches_workspace, evaluate_replay,
}

pub record Listener {ℓ} (P : Type ℓ) : Type ℓ where
  pub throws_on : StreamEvent P → Bool
  pub throws_on_reset : Bool

pub record SubscriptionOptions {ℓ} (P : Type ℓ) : Type ℓ where
  pub tenant_id : String
  pub workspace_id : Option String
  pub cursor : Option String
  pub listener : Listener P

pub data SubscribeOutcome {ℓ} (P : Type ℓ) : Type ℓ where
  subscribed : ReplayEvaluation P → SubscribeOutcome P
  too_many_streams : SubscribeOutcome P
  listener_failed : SubscribeOutcome P

abbrev pub other_than : String → Subscriber → Bool
other_than id sub = not (sub.id == id)

module _ {ℓ} {P : Type ℓ} where
  -- The loop that delivers the replayed events: the subscriber afterwards, what was delivered, and
  -- whether the listener threw, which ends the loop.
  unfoldable pub deliver_replay :
      (StreamEvent P → Bool)
      → Subscriber
      → List (StreamEvent P)
      → Subscriber × List (Delivery P) × Bool
  unfolding matches_workspace
  deliver_replay throws_on sub [] = (sub, [], false)
  deliver_replay throws_on sub (e ∷ es) =
      let sub' = record sub { last_delivered_seq = some e.sequence_number } in
      let (end, ds, threw) = deliver_replay throws_on sub' es in
      let later = deliver_replay throws_on sub es in
      if matches_workspace sub e
      then if throws_on e then (sub', (sub.id, e) ∷ [], true) else (end, (sub.id, e) ∷ ds, threw)
      else later

  -- The highest sequence number that the replay has dealt with.
  unfoldable pub replay_horizon : Option String → List (StreamEvent P) → Option ℕ
  unfolding parse_stream_cursor last_sequence
  replay_horizon none [] = none
  replay_horizon (some cursor) [] = elim (parse_stream_cursor cursor) [
    | none ↦ none
    | some c ↦ some c.sequence_number
  ]
  replay_horizon cursor (e ∷ es) = last_sequence (e ∷ es)

  abbrev fresh_subscriber : String → SubscriptionOptions P → Subscriber
  fresh_subscriber id options = record {
    id = id;
    tenant_id = options.tenant_id;
    workspace_id = options.workspace_id;
    last_delivered_seq = none;
    max_evaluated_replay_seq = none;
  }

  -- The subscriber after the replay, with what it was sent and whether a callback threw.
  unfoldable pub run_replay :
      SubscriptionOptions P
      → Subscriber
      → ReplayEvaluation P
      → Subscriber × List (Delivery P) × Bool
  unfolding deliver_replay replay_horizon
  run_replay options sub no_replay = (sub, [], false)
  run_replay options sub (reset why) = (sub, [], options.listener.throws_on_reset)
  run_replay options sub (replay events) =
      deliver_replay options.listener.throws_on
        (record sub { max_evaluated_replay_seq = replay_horizon options.cursor events }) events

  -- The registration, and its end when a callback throws.
  unfoldable pub register : EventBus P → Subscriber → EventBus P
  register bus sub = record bus {
    subscribers = put sub.tenant_id (subscribers_of bus sub.tenant_id ++ sub ∷ []) bus.subscribers;
    subscribed_ids = bus.subscribed_ids ++ sub.id ∷ [];
  }

  unfoldable pub leave_failed : EventBus P → String → EventBus P
  leave_failed bus tenant = record bus {
    subscribers = put tenant (subscribers_of bus tenant) bus.subscribers;
  }

  unfoldable pub subscribe :
      Host
      → (id : String) → (now : ℕ) → EventBus P
      → SubscriptionOptions P
      → EventBus P × SubscribeOutcome P × List (Delivery P)
  unfolding evaluate_replay run_replay register leave_failed
  subscribe host id now bus options =
      let (evaluated, result) = evaluate_replay host bus options.tenant_id options.cursor now in
      let (sub, ds, threw) = run_replay options (fresh_subscriber id options) result in
      if leb bus.max_streams_per_tenant (length (subscribers_of bus options.tenant_id))
      then (bus, too_many_streams, [])
      else if threw
      then (leave_failed evaluated options.tenant_id, listener_failed, ds)
      else (register evaluated sub, subscribed result, ds)

  -- The tenant's entry goes with its last subscriber.
  unfoldable pub set_or_delete : EventBus P → String → List Subscriber → EventBus P
  set_or_delete bus tenant [] = record bus { subscribers = delete tenant bus.subscribers }
  set_or_delete bus tenant (s ∷ rest) = record bus {
    subscribers = put tenant (s ∷ rest) bus.subscribers;
  }

  -- `subs.delete(subscriber)`.
  unfoldable pub drop_subscriber : EventBus P → String → String → EventBus P
  unfolding set_or_delete
  drop_subscriber bus tenant id = elim (get tenant bus.subscribers) [
    | none ↦ bus
    | some subs ↦ set_or_delete bus tenant (filter (other_than id) subs)
  ]

  -- The handle's `unsubscribe` and `isSubscribed`.
  unfoldable pub unsubscribe : EventBus P → String → String → EventBus P × Bool
  unfolding drop_subscriber
  unsubscribe bus tenant id =
      if includes id bus.subscribed_ids
      then (
        record (drop_subscriber bus tenant id) {
          subscribed_ids = filter (λ i. not (i == id)) bus.subscribed_ids;
        },
        true,
      )
      else (bus, false)

  unfoldable pub is_subscribed : EventBus P → String → Bool
  is_subscribed bus id = includes id bus.subscribed_ids
