-- ===== src/Events/Replay.antt =====
-- What a cursor is answered by the bus of services/backend/src/events/stream-event-bus.ts after any
-- calls, against the log of what was published.
use nexus_os_ai_workspace.Base.{
  ℕ, ◌≡◌, refl, ap, ◌∙◌, sym, String, true, Option, none, some, List, [], ◌∷◌, filter, arith,
  Option-cases, Bool-cases, inl, inr, ltb, eqb, ◌==◌, eq_iff, get, get-delete, eqb_iff,
  if◌then◌else◌,
}
use nexus_os_ai_workspace.Host.{Host}
use nexus_os_ai_workspace.Events.Cursors.{ParsedStreamCursor, parse_stream_cursor}
use nexus_os_ai_workspace.Events.Envelope.{StreamEvent, Codec}
use nexus_os_ai_workspace.Events.Buffer.{
  newer_than, first_sequence, drop_stale, prune, get_oldest_sequence, get_events_since,
}
use nexus_os_ai_workspace.Events.Bus.{
  EventBus, StreamResetPayload, replay, reset, new_bus, latest_sequence, buffer_of, if_evicted,
  replay_from, evaluate_replay, clear,
}
use nexus_os_ai_workspace.Events.Suffix.{
  Suffix, here, Suffix-trans, Suffix-prune, Rising, filter-UpTo, filter-Suffix,
}
use nexus_os_ai_workspace.Events.Calls.{Call, covers, run}
use nexus_os_ai_workspace.Events.Stands.{Rep}
use nexus_os_ai_workspace.Events.Kept.{Rep-run}

module _ {ℓ} {P : Type ℓ} (host : Host) (codec : Codec P) where
  Rep-new_bus :
      (tenant epoch : String) (capacity age streams : ℕ)
      → Rep {P = P} tenant (new_bus epoch capacity age streams) []
  unfolding new_bus get
  Rep-new_bus tenant epoch capacity age streams = record {
    up_to = tt;
    rising = tt;
    suffix = here;
    sized = omega arith;
    capacity_kept = refl;
  }

  latest_sequence-clear :
      (tenant : String) (t : Option String) (bus : EventBus P)
      → latest_sequence (clear bus t) tenant
        ≡ (if covers t tenant then 0 else latest_sequence bus tenant)
  unfolding clear get
  latest_sequence-clear tenant none bus = refl
  latest_sequence-clear tenant (some t) bus =
      ground (arith, get-delete t tenant bus.tenant_sequences)

  epoch-clear :
      (t : Option String) (bus : EventBus P) → (clear bus t).stream_epoch_id ≡ bus.stream_epoch_id
  unfolding clear
  epoch-clear none bus = refl
  epoch-clear (some t) bus = ground arith

  -- After any calls on a new bus, the numbers of the events published to a tenant since the last
  -- `clear` that covers it rise and lie up to its head, and its buffer holds the last of these
  -- events, at most as many as its capacity. A `clear` that covers the tenant sets its head back to
  -- 0, so that the numbers start anew, any other leaves it, and both leave the epoch as it is.
  pub run-Rep :
      (tenant epoch : String) (capacity age streams : ℕ) (cs : List (Call P)) (t : Option String)
      → let (bus, log) = run host codec tenant (new_bus epoch capacity age streams) [] cs in
        Rep tenant bus log
        × (latest_sequence (clear bus t) tenant
            ≡ (if covers t tenant then 0 else latest_sequence bus tenant))
        × ((clear bus t).stream_epoch_id ≡ bus.stream_epoch_id)
  run-Rep tenant epoch capacity age streams cs t =
      let (bus, log) = run host codec tenant (new_bus epoch capacity age streams) [] cs in
      (
        Rep-run host codec tenant (new_bus epoch capacity age streams) [] cs
            (Rep-new_bus tenant epoch capacity age streams),
        latest_sequence-clear tenant t bus,
        epoch-clear t bus,
      )

  drop_stale_idem :
      (age now : ℕ) (xs : List (StreamEvent P))
      → let live = drop_stale host.date_ms age now xs in drop_stale host.date_ms age now live ≡ live
  unfolding drop_stale
  drop_stale_idem age now [] = refl
  drop_stale_idem age now (x ∷ xs) = ground (arith, drop_stale_idem age now xs)

  -- The end of a replay from the events `es` that the buffer still has.
  oldest-log :
      (n : ℕ) (es fs log events : List (StreamEvent P)) (oldest : Option ℕ)
      (expired retained : EventBus P) (why : StreamResetPayload)
      → Suffix es log
      → Rising log
      → oldest ≡ first_sequence es
      → fs ≡ es
      → (if_evicted oldest n (expired, reset why) (retained, replay (filter (newer_than n) fs))).1
        ≡ replay events
      → events ≡ filter (newer_than n) log
  unfolding if_evicted
  oldest-log n [] fs log events oldest expired retained why s r o f h = cc (rw (o, if_evicted) at h)
  oldest-log n (e ∷ es) fs log events oldest expired retained why s r o f h =
      elim (Bool-cases (ltb n e.sequence_number)) [
        | inl old ↦ cc (rw (o, if_evicted, old) at h)
        | inr kept ↦
            let same : filter (newer_than n) (e ∷ es) ≡ events =
              cc (rw (o, if_evicted, kept, f) at h) in
            sym same ∙ filter-Suffix n e s r (ground (arith, kept))
      ]

  replay_from-log :
      (bus : EventBus P) (tenant cursor : String) (n now : ℕ) (log events : List (StreamEvent P))
      → Rep tenant bus log
      → (replay_from host bus tenant cursor n now).1 ≡ replay events
      → events ≡ filter (newer_than n) log
  unfolding replay_from get_oldest_sequence get_events_since prune
  replay_from-log bus tenant cursor n now log events h e =
      let b = buffer_of bus tenant in
      let once = prune host.date_ms b now in
      let idem = drop_stale_idem b.max_age_ms now b.events in
      oldest-log n once.events _ log events _ _ _ _
        (Suffix-trans (Suffix-prune host.date_ms b now) h.suffix) h.rising (ap first_sequence idem)
        (ap (drop_stale host.date_ms b.max_age_ms now) idem ∙ idem) e

  evaluate-log :
      (bus : EventBus P) (tenant cursor : String) (now : ℕ) (log events : List (StreamEvent P))
      → Rep tenant bus log
      → (evaluate_replay host bus tenant (some cursor) now).1 ≡ replay events
      → (c : ParsedStreamCursor) × (parse_stream_cursor cursor ≡ some c)
        × (c.epoch_id ≡ bus.stream_epoch_id)
        × (events ≡ filter (newer_than c.sequence_number) log)
  unfolding evaluate_replay
  evaluate-log bus tenant cursor now log events h e =
      elim (Option-cases (parse_stream_cursor cursor)) [
        | inl bad ↦ ground arith
        | inr (c, good) ↦ (
          c,
          good,
          ground (arith, eq_iff c.epoch_id bus.stream_epoch_id),
          elim (Bool-cases (c.epoch_id == bus.stream_epoch_id)) [
            | inr foreign ↦ cc (rw (good, evaluate_replay, foreign) at e)
            | inl own ↦ at_epoch c good own
          ],
        )
      ]
    where
      head : ℕ
      head = latest_sequence bus tenant

      at_epoch :
          (c : ParsedStreamCursor)
          → parse_stream_cursor cursor ≡ some c
          → c.epoch_id == bus.stream_epoch_id ≡ true
          → events ≡ filter (newer_than c.sequence_number) log
      at_epoch c good own = elim (Bool-cases (ltb head c.sequence_number)) [
        | inl future ↦ cc (rw (good, evaluate_replay, own, future) at e)
        | inr past ↦ elim (Bool-cases (eqb c.sequence_number head)) [
          | inl same ↦
              let at_head : c.sequence_number ≡ head = (eqb_iff c.sequence_number head).0 same in
              let nothing : [] ≡ events = cc (rw (good, evaluate_replay, own, past, same) at e) in
              sym nothing ∙ sym (rw at_head (filter-UpTo head log h.up_to))
          | inr behind ↦
              replay_from-log bus tenant cursor c.sequence_number now log events h
                (rw (good, evaluate_replay, own, past, behind) at e)
        ]
      ]

  -- After any calls on a new bus, a cursor that is answered by a replay names the epoch of the bus,
  -- and the replay is exactly the events with greater numbers that were published to the tenant
  -- since the last `clear` that covers it, in order. Nothing tells a cursor handed out before that
  -- `clear`, whose numbers started anew, from one handed out after it.
  pub replays_log :
      (tenant epoch cursor : String) (capacity age streams now : ℕ) (cs : List (Call P))
      (events : List (StreamEvent P))
      → let (bus, log) = run host codec tenant (new_bus epoch capacity age streams) [] cs in
        (evaluate_replay host bus tenant (some cursor) now).1 ≡ replay events
        → (c : ParsedStreamCursor) × (parse_stream_cursor cursor ≡ some c)
          × (c.epoch_id ≡ bus.stream_epoch_id)
          × (events ≡ filter (newer_than c.sequence_number) log)
  replays_log tenant epoch cursor capacity age streams now cs events =
      let (bus, log) = run host codec tenant (new_bus epoch capacity age streams) [] cs in
      evaluate-log bus tenant cursor now log events
        (run-Rep tenant epoch capacity age streams cs none).0
