-- ===== src/Events/Bus.antt =====
-- Publishing and replaying: `publish`, `evaluateReplay`, `getReplayEvents` and `clear` of class
-- `TenantStreamEventBus` of services/backend/src/events/stream-event-bus.ts. A call returns the new
-- bus; what it hands to listeners is part of its result. The listeners of the model do not call
-- the bus back.
use nexus_os_ai_workspace.Base.{
  ℕ, ◌+◌, String, Bool, false, not, ◌||◌, Option, none, some, List, [], ◌∷◌, ◌++◌, if◌then◌else◌,
  ltb, leb, eqb, length, nonempty, truthy, ◌==◌, get, put, delete, get_or, includes, same_text,
}
use nexus_os_ai_workspace.Host.{Host}
use nexus_os_ai_workspace.Events.Cursors.{parse_stream_cursor}
use nexus_os_ai_workspace.Events.Envelope.{
  StreamEvent, Codec, Draw, PublishInput, payload_bytes, max_telemetry_payload_bytes, create_event,
}
use nexus_os_ai_workspace.Events.Buffer.{
  ReplayBuffer, push, prune, get_events, get_events_since, get_oldest_sequence,
}

-- A subscriber with the variables that its listener closes over.
pub record Subscriber : Type 0 where
  pub id : String
  pub tenant_id : String
  pub workspace_id : Option String
  pub last_delivered_seq : Option ℕ
  pub max_evaluated_replay_seq : Option ℕ

-- `subscribed_ids`: the subscriptions whose variable `isSubscribed` is set.
pub record EventBus {ℓ} (P : Type ℓ) : Type ℓ where
  pub stream_epoch_id : String
  pub tenant_sequences : List (String × ℕ)
  pub replay_buffers : List (String × ReplayBuffer P)
  pub subscribers : List (String × List Subscriber)
  pub subscribed_ids : List String
  pub max_replay_buffer_capacity : ℕ
  pub max_replay_age_ms : ℕ
  pub max_streams_per_tenant : ℕ

pub data StreamResetReason : Type 0 where
  server_epoch_changed replay_buffer_expired : StreamResetReason
  future_cursor_detected malformed_cursor : StreamResetReason

pub record StreamResetPayload : Type 0 where
  pub reason : StreamResetReason
  pub current_epoch : String
  pub current_sequence : ℕ
  pub requested_cursor : String

pub data ReplayEvaluation {ℓ} (P : Type ℓ) : Type ℓ where
  no_replay : ReplayEvaluation P
  replay : List (StreamEvent P) → ReplayEvaluation P
  reset : StreamResetPayload → ReplayEvaluation P

-- `never_returns` is the endless loop of a buffer with a capacity of 0.
pub data PublishOutcome {ℓ} (P : Type ℓ) : Type ℓ where
  published : StreamEvent P → PublishOutcome P
  payload_too_large : (bytes : ℕ) → PublishOutcome P
  invalid_event : PublishOutcome P
  never_returns : PublishOutcome P

-- What a listener was called with.
abbrev pub Delivery {ℓ} : Type ℓ → Type ℓ
Delivery P = String × StreamEvent P

abbrev pub has_reached : ℕ → Option ℕ → Bool
has_reached n none = false
has_reached n (some m) = leb n m

abbrev is_wildcard : Option String → Bool
is_wildcard w = not (truthy w) || same_text w (some "*")

module _ {ℓ} {P : Type ℓ} where
  unfoldable pub new_bus : String → (capacity age streams : ℕ) → EventBus P
  new_bus epoch capacity age streams = record {
    stream_epoch_id = epoch;
    tenant_sequences = [];
    replay_buffers = [];
    subscribers = [];
    subscribed_ids = [];
    max_replay_buffer_capacity = capacity;
    max_replay_age_ms = age;
    max_streams_per_tenant = streams;
  }

  abbrev pub latest_sequence : EventBus P → String → ℕ
  latest_sequence bus tenant = get_or (get tenant bus.tenant_sequences) 0

  abbrev pub subscribers_of : EventBus P → String → List Subscriber
  subscribers_of bus tenant = get_or (get tenant bus.subscribers) []

  unfoldable pub get_active_stream_count : EventBus P → String → ℕ
  get_active_stream_count bus tenant = length (subscribers_of bus tenant)

  unfoldable pub can_subscribe : EventBus P → String → Bool
  unfolding get_active_stream_count
  can_subscribe bus tenant = ltb (get_active_stream_count bus tenant) bus.max_streams_per_tenant

  -- The buffer that `getOrCreateReplayBuffer` finds or makes.
  abbrev pub buffer_of : EventBus P → String → ReplayBuffer P
  buffer_of bus tenant = get_or (get tenant bus.replay_buffers) (record {
    events = [];
    max_buffer_size = bus.max_replay_buffer_capacity;
    max_age_ms = bus.max_replay_age_ms;
  })

  abbrev pub set_buffer : String → ReplayBuffer P → EventBus P → EventBus P
  set_buffer tenant b bus = record bus { replay_buffers = put tenant b bus.replay_buffers }

  -- `tenantSequences.set(tenant, current)`.
  abbrev pub set_sequence : String → ℕ → EventBus P → EventBus P
  set_sequence tenant n bus = record bus { tenant_sequences = put tenant n bus.tenant_sequences }

  unfoldable pub matches_workspace : Subscriber → StreamEvent P → Bool
  matches_workspace sub e =
      is_wildcard sub.workspace_id
      || is_wildcard e.workspace_id
      || same_text e.workspace_id sub.workspace_id

  -- The listener of a subscriber once its replay is over: it hands on what lies past the replay and
  -- past the last event that it handed on.
  unfoldable pub listen :
      (is_subscribed : Bool) → Subscriber → StreamEvent P → Subscriber × List (Delivery P)
  listen is_subscribed sub e =
      if not is_subscribed
        || has_reached e.sequence_number sub.max_evaluated_replay_seq
        || has_reached e.sequence_number sub.last_delivered_seq
      then (sub, [])
      else (record sub { last_delivered_seq = some e.sequence_number }, (sub.id, e) ∷ [])

  -- The loop of `dispatchToSubscribers`; an error of a listener is caught.
  unfoldable pub dispatch_to :
      List String → StreamEvent P → List Subscriber → List Subscriber × List (Delivery P)
  unfolding matches_workspace listen
  dispatch_to ids e [] = ([], [])
  dispatch_to ids e (sub ∷ subs) =
      let (subs', ds) = dispatch_to ids e subs in
      let (sub', d) = listen (includes sub.id ids) sub e in
      if matches_workspace sub e then (sub' ∷ subs', d ++ ds) else (sub ∷ subs', ds)

  unfoldable pub dispatch_to_subscribers :
      EventBus P → StreamEvent P → EventBus P × List (Delivery P)
  unfolding dispatch_to
  dispatch_to_subscribers bus e = elim (get e.tenant_id bus.subscribers) [
    | none ↦ (bus, [])
    | some subs ↦
        let (subs', ds) = dispatch_to bus.subscribed_ids e subs in
        (record bus { subscribers = put e.tenant_id subs' bus.subscribers }, ds)
  ]

module _ {ℓ} {P : Type ℓ} (host : Host) (codec : Codec P) where
  -- `publish` once the event is made: into the buffer, then to the subscribers.
  unfoldable pub store_event :
      ℕ → StreamEvent P → EventBus P → EventBus P × PublishOutcome P × List (Delivery P)
  unfolding push dispatch_to_subscribers
  store_event now e bus = elim (push host.date_ms (buffer_of bus e.tenant_id) e now) [
    | none ↦ (bus, never_returns, [])
    | some b ↦
        let (bus', ds) = dispatch_to_subscribers (set_buffer e.tenant_id b bus) e in
        (bus', published e, ds)
  ]

  -- The sequence number is taken before the event is checked.
  unfoldable pub publish :
      Draw → EventBus P → PublishInput P → EventBus P × PublishOutcome P × List (Delivery P)
  unfolding create_event store_event
  publish draw bus input =
      let bytes = payload_bytes codec input.payload in
      let n = latest_sequence bus input.tenant_id + 1 in
      let counted = set_sequence input.tenant_id n bus in
      if ltb max_telemetry_payload_bytes bytes
      then (bus, payload_too_large bytes, [])
      else elim (create_event host codec draw bus.stream_epoch_id n input) [
        | none ↦ (counted, invalid_event, [])
        | some e ↦ store_event draw.now e counted
      ]

module _ {ℓ} {P : Type ℓ} where
  -- `oldestSeq === null || n < oldestSeq`.
  unfoldable pub if_evicted :
      Option ℕ
      → ℕ
      → (evicted retained : EventBus P × ReplayEvaluation P) → EventBus P × ReplayEvaluation P
  if_evicted none n evicted retained = evicted
  if_evicted (some oldest) n evicted retained = if ltb n oldest then evicted else retained

module _ {ℓ} {P : Type ℓ} (host : Host) where
  abbrev reset_for : EventBus P → String → String → StreamResetReason → ReplayEvaluation P
  reset_for bus tenant cursor why = reset (record {
    reason = why;
    current_epoch = bus.stream_epoch_id;
    current_sequence = latest_sequence bus tenant;
    requested_cursor = cursor;
  })

  -- `evaluateReplay` of a cursor of this epoch that is behind the head: the buffer decides.
  unfoldable pub replay_from :
      EventBus P → String → (cursor : String) → ℕ → (now : ℕ) → EventBus P × ReplayEvaluation P
  unfolding prune get_oldest_sequence get_events_since if_evicted
  replay_from bus tenant cursor n now =
      let (b, oldest) =
        get_oldest_sequence host.date_ms (prune host.date_ms (buffer_of bus tenant) now) now in
      let (b', events) = get_events_since host.date_ms b n now in
      if_evicted oldest n
        (set_buffer tenant b bus, reset_for bus tenant cursor replay_buffer_expired)
        (set_buffer tenant b' bus, replay events)

  unfoldable pub evaluate_replay :
      EventBus P → String → Option String → (now : ℕ) → EventBus P × ReplayEvaluation P
  unfolding parse_stream_cursor replay_from
  evaluate_replay bus tenant none now = (bus, no_replay)
  evaluate_replay bus tenant (some cursor) now =
      let behind = λ (n : ℕ). replay_from bus tenant cursor n now in
      elim (parse_stream_cursor cursor) [
        | none ↦ (bus, reset_for bus tenant cursor malformed_cursor)
        | some c ↦
            if not (c.epoch_id == bus.stream_epoch_id)
            then (bus, reset_for bus tenant cursor server_epoch_changed)
            else if ltb (latest_sequence bus tenant) c.sequence_number
            then (bus, reset_for bus tenant cursor future_cursor_detected)
            else if eqb c.sequence_number (latest_sequence bus tenant)
            then (bus, replay [])
            else behind c.sequence_number
      ]

  unfoldable pub get_replay_events :
      EventBus P → String → (now : ℕ) → EventBus P × List (StreamEvent P)
  unfolding get_events
  get_replay_events bus tenant now = elim (get tenant bus.replay_buffers) [
    | none ↦ (bus, [])
    | some b ↦
        let (b', events) = get_events host.date_ms b now in (set_buffer tenant b' bus, events)
  ]

module _ {ℓ} {P : Type ℓ} where
  unfoldable pub clear : EventBus P → Option String → EventBus P
  clear bus none = record bus { tenant_sequences = []; replay_buffers = []; subscribers = [] }
  clear bus (some tenant) =
      if nonempty tenant
      then record bus {
        tenant_sequences = delete tenant bus.tenant_sequences;
        replay_buffers = delete tenant bus.replay_buffers;
        subscribers = delete tenant bus.subscribers;
      }
      else record bus { tenant_sequences = []; replay_buffers = []; subscribers = [] }
