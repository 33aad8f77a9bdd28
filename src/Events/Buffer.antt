-- ===== src/Events/Buffer.antt =====
-- The bounded buffer of recent events: class `StreamReplayBuffer` of
-- services/backend/src/events/stream-event-bus.ts. `date_ms` is `new Date(text).getTime()`, `none`
-- for NaN.
use nexus_os_ai_workspace.Base.{
  ℕ, ◌+◌, String, Bool, false, Option, none, some, List, [], ◌∷◌, ◌++◌, if◌then◌else◌, ltb, eqb,
  length, filter,
}
use nexus_os_ai_workspace.Events.Envelope.{StreamEvent}

pub record ReplayBuffer {ℓ} (P : Type ℓ) : Type ℓ where
  pub events : List (StreamEvent P)
  pub max_buffer_size : ℕ
  pub max_age_ms : ℕ

-- `eventTime < now - maxAgeMs`.
abbrev pub is_stale : ℕ → ℕ → Option ℕ → Bool
is_stale max_age now none = false
is_stale max_age now (some t) = ltb (t + max_age) now

module _ {ℓ} {P : Type ℓ} where
  abbrev pub newer_than : ℕ → StreamEvent P → Bool
  newer_than n e = ltb n e.sequence_number

  -- The loop of `push` that shifts while the buffer is full. With a capacity of 0 it never ends:
  -- `none`.
  unfoldable pub make_room : ℕ → List (StreamEvent P) → Option (List (StreamEvent P))
  make_room capacity [] = if eqb capacity 0 then none else some []
  make_room capacity (e ∷ es) =
      let rest = make_room capacity es in
      if ltb (length (e ∷ es)) capacity then some (e ∷ es) else rest

  abbrev pub first_sequence : List (StreamEvent P) → Option ℕ
  first_sequence [] = none
  first_sequence (e ∷ es) = some e.sequence_number

  unfoldable pub last_sequence : List (StreamEvent P) → Option ℕ
  last_sequence [] = none
  last_sequence (e ∷ []) = some e.sequence_number
  last_sequence (e ∷ f ∷ es) = last_sequence (f ∷ es)

module _ {ℓ} {P : Type ℓ} (date_ms : String → Option ℕ) where
  -- The loop of `prune`: it shifts until the first event that is not stale.
  unfoldable pub drop_stale : ℕ → ℕ → List (StreamEvent P) → List (StreamEvent P)
  drop_stale max_age now [] = []
  drop_stale max_age now (e ∷ es) =
      let rest = drop_stale max_age now es in
      if is_stale max_age now (date_ms e.occurred_at) then rest else e ∷ es

  unfoldable pub prune : ReplayBuffer P → ℕ → ReplayBuffer P
  unfolding drop_stale
  prune b now = record b { events = drop_stale b.max_age_ms now b.events }

  unfoldable pub push : ReplayBuffer P → StreamEvent P → ℕ → Option (ReplayBuffer P)
  unfolding prune make_room
  push b e now =
      let pruned = prune b now in
      elim (make_room pruned.max_buffer_size pruned.events) [
        | none ↦ none
        | some kept ↦ some (record pruned { events = kept ++ e ∷ [] })
      ]

  unfoldable pub get_events : ReplayBuffer P → ℕ → ReplayBuffer P × List (StreamEvent P)
  unfolding prune
  get_events b now = let pruned = prune b now in (pruned, pruned.events)

  unfoldable pub get_events_since : ReplayBuffer P → ℕ → ℕ → ReplayBuffer P × List (StreamEvent P)
  unfolding prune
  get_events_since b n now =
      let pruned = prune b now in (pruned, filter (newer_than n) pruned.events)

  unfoldable pub get_oldest_sequence : ReplayBuffer P → ℕ → ReplayBuffer P × Option ℕ
  unfolding prune
  get_oldest_sequence b now = let pruned = prune b now in (pruned, first_sequence pruned.events)

  unfoldable pub get_latest_sequence : ReplayBuffer P → ℕ → ReplayBuffer P × Option ℕ
  unfolding prune last_sequence
  get_latest_sequence b now = let pruned = prune b now in (pruned, last_sequence pruned.events)

  unfoldable pub get_count : ReplayBuffer P → ℕ → ReplayBuffer P × ℕ
  unfolding prune
  get_count b now = let pruned = prune b now in (pruned, length pruned.events)

module _ {ℓ} {P : Type ℓ} where
  unfoldable pub clear : ReplayBuffer P → ReplayBuffer P
  clear b = record b { events = [] }
