-- ===== src/Events/Envelope.antt =====
-- Events and how they are made: TelemetryStreamEventSchema and createTelemetryStreamEvent of
-- packages/contracts/src/events/stream.ts, sanitizePayload of
-- services/backend/src/events/stream-event-bus.ts. Random identifiers and the clock are a `Draw`.
use Prim.Native.Char.{code}
use nexus_os_ai_workspace.Base.{
  ℕ, ◌+◌, String, Bool, ◌&&◌, Option, none, some, if◌then◌else◌, leb, ltb, ◌==◌, get_or,
  utf16_length, ◌⊕◌, decimal,
}
use nexus_os_ai_workspace.Host.{Host}
use nexus_os_ai_workspace.Events.Cursors.{format_stream_cursor, is_valid_stream_cursor}

abbrev pub max_telemetry_payload_bytes : ℕ
max_telemetry_payload_bytes = 16384

abbrev pub telemetry_stream_version : String
telemetry_stream_version = "1.0.0"

pub data TelemetryEventCategory : Type 0 where
  agent_status_changed delegation_created delegation_progress : TelemetryEventCategory
  delegation_completed delegation_failed delegation_cancelled : TelemetryEventCategory
  task_status_changed approval_requested approval_decided : TelemetryEventCategory
  graph_evolved telemetry_sample stream_reset : TelemetryEventCategory

pub record StreamEvent {ℓ} (P : Type ℓ) : Type ℓ where
  pub schema_id : TelemetryEventCategory
  pub version : String
  pub event_id : String
  pub epoch_id : String
  pub sequence_number : ℕ
  pub cursor : String
  pub tenant_id : String
  pub workspace_id : Option String
  pub correlation_id : String
  pub occurred_at : String
  pub producer_id : String
  pub payload : P

-- `JSON.stringify`, `JSON.parse` and the redaction filter.
pub record Codec {ℓ} (P : Type ℓ) : Type ℓ where
  pub stringify : P → String
  pub parse : String → Option P
  pub redact_secrets : String → String

pub record Draw : Type 0 where
  pub event_uuid : String
  pub correlation_uuid : String
  pub now : ℕ

pub record PublishInput {ℓ} (P : Type ℓ) : Type ℓ where
  pub schema_id : TelemetryEventCategory
  pub tenant_id : String
  pub workspace_id : Option String
  pub correlation_id : Option String
  pub producer_id : Option String
  pub payload : P
  pub event_id : Option String
  pub occurred_at : Option String
  pub skip_redaction : Bool

-- `Buffer.byteLength(s, 'utf-8')`.
unfoldable pub utf8_length : String → ℕ
utf8_length String.[] = 0
utf8_length (String.◌∷◌ c s) =
    (if ltb (code c) 0x80
      then 1
      else if ltb (code c) 0x800
      then 2
      else if ltb (code c) 0x10000
      then 3
      else 4)
    + utf8_length s

abbrev correlation_of : Host → Draw → Option String → String
correlation_of host draw none = draw.correlation_uuid
correlation_of host draw (some c) =
    if c == "" then draw.correlation_uuid else if host.is_uuid c then c else draw.correlation_uuid

module _ {ℓ} {P : Type ℓ} (codec : Codec P) where
  abbrev pub payload_bytes : P → ℕ
  payload_bytes p = utf8_length (codec.stringify p)

  -- A redacted text that no longer parses leaves the payload as it came.
  unfoldable pub sanitize_payload : P → P
  sanitize_payload p =
      let text = codec.stringify p in
      let redacted = codec.redact_secrets text in
      if redacted == text then p else get_or (codec.parse redacted) p

module _ {ℓ} {P : Type ℓ} (host : Host) (codec : Codec P) where
  unfoldable pub event_ok : StreamEvent P → Bool
  unfolding utf8_length is_valid_stream_cursor utf16_length decimal
  event_ok e =
      e.version == telemetry_stream_version
      && host.is_uuid e.event_id
      && host.is_uuid e.epoch_id
      && leb 1 e.sequence_number
      && is_valid_stream_cursor e.cursor
      && host.is_uuid e.tenant_id
      && host.is_uuid e.correlation_id
      && host.is_datetime e.occurred_at
      && leb 1 (utf16_length e.producer_id)
      && leb (utf16_length e.producer_id) 128
      && leb (payload_bytes codec e.payload) max_telemetry_payload_bytes
      && e.cursor == ◌⊕◌ e.epoch_id (◌⊕◌ ":" (decimal e.sequence_number))

  unfoldable pub envelope : Draw → String → ℕ → PublishInput P → String → StreamEvent P
  unfolding sanitize_payload
  envelope draw epoch n input cursor = record {
    schema_id = input.schema_id;
    version = telemetry_stream_version;
    event_id = get_or input.event_id draw.event_uuid;
    epoch_id = epoch;
    sequence_number = n;
    cursor = cursor;
    tenant_id = input.tenant_id;
    workspace_id = input.workspace_id;
    correlation_id = correlation_of host draw input.correlation_id;
    occurred_at = get_or input.occurred_at (host.to_iso draw.now);
    producer_id = get_or input.producer_id "backend.stream-bus";
    payload = if input.skip_redaction then input.payload else sanitize_payload codec input.payload;
  }

  -- `createTelemetryStreamEvent` with the arguments of `publish`; `none` where it throws.
  unfoldable pub create_event : Draw → String → ℕ → PublishInput P → Option (StreamEvent P)
  unfolding format_stream_cursor event_ok envelope
  create_event draw epoch n input = elim (format_stream_cursor host epoch n) [
    | none ↦ none
    | some cursor ↦
        let e = envelope draw epoch n input cursor in if event_ok e then some e else none
  ]
