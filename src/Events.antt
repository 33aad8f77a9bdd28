-- ===== src/Events.antt =====
-- The event stream of the backend: class `TenantStreamEventBus` of
-- services/backend/src/events/stream-event-bus.ts and the cursors and events of
-- packages/contracts/src/events/stream.ts. `P` holds the payloads.
pub mod Cursors
pub mod Envelope
pub mod Buffer
pub mod Bus
pub mod Subscriptions
pub mod Suffix
pub mod Calls
pub mod Stands
pub mod Kept
pub mod Replay
pub mod Delivery
