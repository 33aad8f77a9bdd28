-- ===== src/Events/Kept.antt =====
-- Each call of the bus of services/backend/src/events/stream-event-bus.ts keeps what a tenant's head
-- and buffer stand for.
use nexus_os_ai_workspace.Base.{
  ℕ, ◌+◌, ◌≡◌, refl, ap, ◌∙◌, sym, subst, String, Option, none, some, List, [], ◌∷◌, ◌++◌, filter,
  arith, Option-cases, Bool-cases, inl, inr, get, get-delete, append-nil, ltb, includes, nonempty,
  ◌==◌,
}
use nexus_os_ai_workspace.Host.{Host}
use nexus_os_ai_workspace.Events.Cursors.{parse_stream_cursor, format_stream_cursor}
use nexus_os_ai_workspace.Events.Envelope.{
  StreamEvent, Codec, Draw, PublishInput, create_event, envelope, payload_bytes,
  max_telemetry_payload_bytes,
}
use nexus_os_ai_workspace.Events.Buffer.{
  ReplayBuffer, prune, push, get_oldest_sequence, get_events_since,
}
use nexus_os_ai_workspace.Events.Bus.{
  EventBus, Subscriber, ReplayEvaluation, published, latest_sequence, buffer_of, set_buffer,
  set_sequence, dispatch_to_subscribers, store_event, publish, if_evicted, replay_from,
  evaluate_replay, get_replay_events, clear,
}
use nexus_os_ai_workspace.Events.Subscriptions.{
  SubscriptionOptions, subscribe, unsubscribe, drop_subscriber, register, leave_failed,
  set_or_delete, other_than,
}
use nexus_os_ai_workspace.Events.Suffix.{here, Suffix-trans, Suffix-prune, Suffix-push}
use nexus_os_ai_workspace.Events.Calls.{
  Call, publish_call, evaluate_call, read_call, subscribe_call, unsubscribe_call, clear_call,
  logged, step, log_since_clear, run,
}
use nexus_os_ai_workspace.Events.Stands.{Rep, Rep-set_buffer, Rep-set_sequence, Rep-store}

module _ {ℓ} {P : Type ℓ} (host : Host) (codec : Codec P) where
  create_event-numbers :
      (draw : Draw) (epoch : String) (n : ℕ) (input : PublishInput P) (e : StreamEvent P)
      → create_event host codec draw epoch n input ≡ some e
      → (e.tenant_id ≡ input.tenant_id) × (e.sequence_number ≡ n)
  unfolding create_event envelope
  create_event-numbers draw epoch n input e h =
      elim (Option-cases (format_stream_cursor host epoch n)) [
        | inl bad ↦ ground arith
        | inr (cursor, good) ↦ ground arith
      ]

  Rep-dispatch :
      (tenant : String) (e : StreamEvent P) (bus : EventBus P) (log : List (StreamEvent P))
      → Rep tenant bus log
      → Rep tenant (dispatch_to_subscribers bus e).0 log
  unfolding dispatch_to_subscribers
  Rep-dispatch tenant e bus log h = elim (Option-cases (get e.tenant_id bus.subscribers)) [
    | inl absent ↦ rw (absent, dispatch_to_subscribers) h
    | inr (subs, present) ↦ rw (present, dispatch_to_subscribers) h
  ]

  Rep-store_event :
      (tenant : String) (now : ℕ) (e : StreamEvent P) (bus : EventBus P)
      (log : List (StreamEvent P))
      → e.sequence_number ≡ latest_sequence bus e.tenant_id + 1
      → let t = e.tenant_id in
        let counted = set_sequence t (latest_sequence bus t + 1) bus in
        Rep tenant bus log
        → Rep tenant
            (store_event host codec now e counted).0
            (log ++ logged tenant (store_event host codec now e counted).1)
  unfolding store_event
  Rep-store_event tenant now e bus log next h =
      let t = e.tenant_id in
      let counted = set_sequence t (latest_sequence bus t + 1) bus in
      elim (Option-cases (push host.date_ms (buffer_of counted t) e now)) [
        | inl full ↦ rw (full, store_event, append-nil log) (Rep-set_sequence tenant t bus log h)
        | inr (b, stored) ↦
            let (s, sized, same) = Suffix-push host.date_ms (buffer_of bus t) b e now stored in
            rw (stored, store_event)
              (Rep-dispatch tenant e (set_buffer t b counted) (log ++ logged tenant (published e))
                (Rep-store tenant b e bus log s sized same next h))
      ]

  Rep-publish :
      (tenant : String) (draw : Draw) (input : PublishInput P) (bus : EventBus P)
      (log : List (StreamEvent P))
      → Rep tenant bus log
      → Rep tenant
          (publish host codec draw bus input).0
          (log ++ logged tenant (publish host codec draw bus input).1)
  unfolding publish
  Rep-publish tenant draw input bus log h =
      let t = input.tenant_id in
      let n = latest_sequence bus t + 1 in
      elim (Bool-cases (ltb max_telemetry_payload_bytes (payload_bytes codec input.payload))) [
        | inl large ↦ rw (large, publish, append-nil log) h
        | inr fits ↦
            elim (Option-cases (create_event host codec draw bus.stream_epoch_id n input)) [
              | inl bad ↦
                  rw (fits, bad, publish, append-nil log) (Rep-set_sequence tenant t bus log h)
              | inr (e, made) ↦
                  let (own, next) = create_event-numbers draw bus.stream_epoch_id n input e made in
                  let taken = λ (k : String). set_sequence k (latest_sequence bus k + 1) bus in
                  rw (fits, made, publish)
                    (subst
                      (λ k.
                        Rep tenant (store_event host codec draw.now e (taken k)).0
                          (log ++ logged tenant (store_event host codec draw.now e (taken k)).1))
                      own
                      (Rep-store_event tenant draw.now e bus log
                        (next ∙ ap (λ k. latest_sequence bus k + 1) (sym own)) h))
            ]
      ]

  Rep-if_evicted :
      (tenant : String) (log : List (StreamEvent P)) (oldest : Option ℕ) (n : ℕ)
      (x y : EventBus P × ReplayEvaluation P)
      → Rep tenant x.0 log
      → Rep tenant y.0 log
      → Rep tenant (if_evicted oldest n x y).0 log
  unfolding if_evicted
  Rep-if_evicted tenant log none n x y h k = h
  Rep-if_evicted tenant log (some m) n x y h k = ground (arith, h, k)

  Rep-replay_from :
      (tenant t cursor : String) (n now : ℕ) (bus : EventBus P) (log : List (StreamEvent P))
      → Rep tenant bus log
      → Rep tenant (replay_from host bus t cursor n now).0 log
  unfolding replay_from get_oldest_sequence get_events_since
  Rep-replay_from tenant t cursor n now bus log h =
      let shrink = λ (b : ReplayBuffer P). Suffix-prune host.date_ms b now in
      let b = buffer_of bus t in
      let once = prune host.date_ms b now in
      let twice = prune host.date_ms once now in
      let s = Suffix-trans (shrink once) (shrink b) in
      Rep-if_evicted tenant log (get_oldest_sequence host.date_ms once now).1 n _ _
        (Rep-set_buffer tenant t twice bus log s refl h)
        (Rep-set_buffer tenant t (prune host.date_ms twice now) bus log
          (Suffix-trans (shrink twice) s) refl h)

  Rep-evaluate :
      (tenant t : String) (cursor : Option String) (now : ℕ) (bus : EventBus P)
      (log : List (StreamEvent P))
      → Rep tenant bus log
      → Rep tenant (evaluate_replay host bus t cursor now).0 log
  unfolding evaluate_replay
  Rep-evaluate tenant t none now bus log h = h
  Rep-evaluate tenant t (some cursor) now bus log h =
      elim (Option-cases (parse_stream_cursor cursor)) [
        | inl bad ↦ rw (bad, evaluate_replay) h
        | inr (c, good) ↦
            ground (arith, Rep-replay_from tenant t cursor c.sequence_number now bus log h)
      ]

  Rep-read :
      (tenant t : String) (now : ℕ) (bus : EventBus P) (log : List (StreamEvent P))
      → Rep tenant bus log
      → Rep tenant (get_replay_events host bus t now).0 log
  unfolding get_replay_events
  Rep-read tenant t now bus log h = elim (Option-cases (get t bus.replay_buffers)) [
    | inl absent ↦ rw (absent, get_replay_events) h
    | inr (b, present) ↦
        rw (present, get_replay_events)
          (Rep-set_buffer tenant t (prune host.date_ms b now) bus log
            (rw present (Suffix-prune host.date_ms b now)) (rw present refl) h)
  ]

  Rep-cleared : (tenant : String) (bus : EventBus P) → Rep tenant (clear bus none) []
  unfolding clear get
  Rep-cleared tenant bus = record {
    up_to = tt;
    rising = tt;
    suffix = here;
    sized = omega arith;
    capacity_kept = refl;
  }

  Rep-clear :
      (tenant : String) (t : Option String) (bus : EventBus P) (log : List (StreamEvent P))
      → Rep tenant bus log
      → Rep tenant (clear bus t) (log_since_clear host codec tenant bus log (clear_call t))
  unfolding clear log_since_clear get
  Rep-clear tenant none bus log h = Rep-cleared tenant bus
  Rep-clear tenant (some t) bus log h = elim (Bool-cases (nonempty t)) [
    | inr empty ↦ rw (empty, clear, log_since_clear) (Rep-cleared tenant bus)
    | inl named ↦ elim (Bool-cases (t == tenant)) [
      | inl own ↦
          rw
            (
              named,
              clear,
              log_since_clear,
              get-delete t tenant bus.tenant_sequences,
              get-delete t tenant bus.replay_buffers,
              own,
            )
            (Rep-cleared tenant bus)
      | inr other ↦
          rw
            (
              named,
              clear,
              log_since_clear,
              get-delete t tenant bus.tenant_sequences,
              get-delete t tenant bus.replay_buffers,
              other,
            )
            h
    ]
  ]

  Rep-subscribe :
      (tenant id : String) (now : ℕ) (bus : EventBus P) (options : SubscriptionOptions P)
      (log : List (StreamEvent P))
      → Rep tenant bus log
      → Rep tenant (subscribe host id now bus options).0 log
  unfolding subscribe register leave_failed
  Rep-subscribe tenant id now bus options log h =
      ground (arith, h, Rep-evaluate tenant options.tenant_id options.cursor now bus log h)

  Rep-set_or_delete :
      (tenant t : String) (bus : EventBus P) (subs : List Subscriber) (log : List (StreamEvent P))
      → Rep tenant bus log
      → Rep tenant (set_or_delete bus t subs) log
  unfolding set_or_delete
  Rep-set_or_delete tenant t bus [] log h = h
  Rep-set_or_delete tenant t bus (s ∷ rest) log h = h

  Rep-unsubscribe :
      (tenant t id : String) (bus : EventBus P) (log : List (StreamEvent P))
      → Rep tenant bus log
      → Rep tenant (unsubscribe bus t id).0 log
  unfolding unsubscribe drop_subscriber
  Rep-unsubscribe tenant t id bus log h = elim (Bool-cases (includes id bus.subscribed_ids)) [
    | inr ended ↦ rw (ended, unsubscribe) h
    | inl open_one ↦ elim (Option-cases (get t bus.subscribers)) [
      | inl absent ↦ rw (open_one, unsubscribe, absent, drop_subscriber) h
      | inr (subs, present) ↦
          rw (open_one, unsubscribe, present, drop_subscriber)
            (Rep-set_or_delete tenant t bus (filter (other_than id) subs) log h)
    ]
  ]

  Rep-step :
      (tenant : String) (bus : EventBus P) (log : List (StreamEvent P)) (c : Call P)
      → Rep tenant bus log
      → Rep tenant (step host codec bus c) (log_since_clear host codec tenant bus log c)
  unfolding step log_since_clear
  Rep-step tenant bus log (publish_call draw input) h = Rep-publish tenant draw input bus log h
  Rep-step tenant bus log (evaluate_call t cursor now) h =
      Rep-evaluate tenant t cursor now bus log h
  Rep-step tenant bus log (read_call t now) h = Rep-read tenant t now bus log h
  Rep-step tenant bus log (subscribe_call id now options) h =
      Rep-subscribe tenant id now bus options log h
  Rep-step tenant bus log (unsubscribe_call t id) h = Rep-unsubscribe tenant t id bus log h
  Rep-step tenant bus log (clear_call t) h = Rep-clear tenant t bus log h

  pub Rep-run :
      (tenant : String) (bus : EventBus P) (log : List (StreamEvent P)) (cs : List (Call P))
      → Rep tenant bus log
      → let (bus', log') = run host codec tenant bus log cs in Rep tenant bus' log'
  unfolding run
  Rep-run tenant bus log [] h = h
  Rep-run tenant bus log (c ∷ cs) h =
      Rep-run tenant (step host codec bus c) (log_since_clear host codec tenant bus log c) cs
        (Rep-step tenant bus log c h)
