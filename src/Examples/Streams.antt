-- ===== src/Examples/Streams.antt =====
-- The event bus at concrete calls.
use nexus_os_ai_workspace.Base.{
  String, ◌≡◌, refl, false, if◌then◌else◌, get, put, delete, none, some, List, [], ◌∷◌, ◌++◌,
  filter,
}
use nexus_os_ai_workspace.Examples.Hosts.{dot_host, dots}
use nexus_os_ai_workspace.Events.Cursors.{ParsedStreamCursor, parse_stream_cursor}
use nexus_os_ai_workspace.Events.Envelope.{
  Codec, Draw, PublishInput, StreamEvent, agent_status_changed,
}
use nexus_os_ai_workspace.Events.Buffer.{newer_than}
use nexus_os_ai_workspace.Events.Bus.{
  Subscriber, latest_sequence, clear, replay, new_bus, evaluate_replay,
}
use nexus_os_ai_workspace.Events.Subscriptions.{SubscriptionOptions, run_replay}
use nexus_os_ai_workspace.Events.Suffix.{Rising}
use nexus_os_ai_workspace.Events.Calls.{Call, publish_call, clear_call, covers, run}
use nexus_os_ai_workspace.Events.Stands.{Rep}
use nexus_os_ai_workspace.Events.Replay.{run-Rep, replays_log}
use nexus_os_ai_workspace.Events.Delivery.{sent, feed, replay_then_live-Rising}

abbrev codec : Codec String
codec = record { stringify = λ s. s; parse = λ s. some s; redact_secrets = λ s. s }

abbrev draw : Draw
draw = record { event_uuid = "e"; correlation_uuid = "c"; now = 5 }

abbrev epoch : String
epoch = "00000000-0000-4000-8000-00000000000a"

abbrev status : PublishInput String
status = record {
  schema_id = agent_status_changed;
  tenant_id = "t1";
  workspace_id = none;
  correlation_id = none;
  producer_id = none;
  payload = "busy";
  event_id = none;
  occurred_at = none;
  skip_redaction = false;
}

abbrev calls : List (Call String)
calls =
    publish_call draw status
    ∷ publish_call draw (record status { tenant_id = "t2" })
    ∷ publish_call draw (record status { payload = "idle" })
    ∷ []

abbrev cursor : String
cursor = "00000000-0000-4000-8000-00000000000a:1"

abbrev second : StreamEvent String
second = record {
  schema_id = agent_status_changed;
  version = "1.0.0";
  event_id = "e";
  epoch_id = epoch;
  sequence_number = 2;
  cursor = "00000000-0000-4000-8000-00000000000a:2";
  tenant_id = "t1";
  workspace_id = none;
  correlation_id = "c";
  occurred_at = ".....";
  producer_id = "backend.stream-bus";
  payload = "idle";
}

run-Rep_example :
    let (bus, log) = run dot_host codec "t1" (new_bus epoch 100 300000 10) [] calls in
    Rep "t1" bus log
    × (latest_sequence (clear bus (some "t1")) "t1"
        ≡ (if covers (some "t1") "t1" then 0 else latest_sequence bus "t1"))
    × ((clear bus (some "t1")).stream_epoch_id ≡ bus.stream_epoch_id)
run-Rep_example = run-Rep dot_host codec "t1" epoch 100 300000 10 calls (some "t1")

-- A cursor handed out before a `clear` is taken for one of the new numbers.
stale_cursor :
    let (bus, log) =
      run dot_host codec "t1"
        (new_bus epoch 100 300000 10)
        []
        (calls ++ clear_call (some "t1") ∷ calls) in
    (evaluate_replay dot_host bus "t1" (some cursor) 6).1 ≡ replay (second ∷ [])
unfolding run evaluate_replay new_bus get put delete dots
stale_cursor = refl

replayed :
    let (bus, log) = run dot_host codec "t1" (new_bus epoch 100 300000 10) [] calls in
    (evaluate_replay dot_host bus "t1" (some cursor) 6).1 ≡ replay (second ∷ [])
unfolding run evaluate_replay new_bus get put dots
replayed = refl

replays_log_example :
    let (bus, log) = run dot_host codec "t1" (new_bus epoch 100 300000 10) [] calls in
    (c : ParsedStreamCursor) × (parse_stream_cursor cursor ≡ some c)
    × (c.epoch_id ≡ bus.stream_epoch_id)
    × (second ∷ [] ≡ filter (newer_than c.sequence_number) log)
replays_log_example =
    replays_log dot_host codec "t1" epoch cursor 100 300000 10 6 calls (second ∷ []) replayed

abbrev options : SubscriptionOptions String
options = record {
  tenant_id = "t1";
  workspace_id = some "w";
  cursor = some cursor;
  listener = record { throws_on = λ e. false; throws_on_reset = false };
}

abbrev client : Subscriber
client = record {
  id = "s";
  tenant_id = "t1";
  workspace_id = some "w";
  last_delivered_seq = none;
  max_evaluated_replay_seq = none;
}

abbrev third : StreamEvent String
third = record second { sequence_number = 3 }

replay_then_live-Rising_example :
    let (sub, ds, _) = run_replay options client (replay (second ∷ [])) in
    Rising (sent (ds ++ feed sub (second ∷ third ∷ third ∷ [])))
replay_then_live-Rising_example =
    replay_then_live-Rising options client (second ∷ []) (second ∷ third ∷ third ∷ []) (tt, tt)
