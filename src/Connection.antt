-- ===== src/Connection.antt =====
-- The agent's connection to the control plane:
-- apps/desktop-agent/src/communication/connection-state-machine.ts. The multiplier of the backoff is
-- a whole number (2 in the source) and `draw` is the number that `Math.random()` returns, in
-- thousandths. Delays are in half milliseconds, since `initialDelayMs / 2` need not be whole. The
-- timer of a reconnection is not modelled.
use nexus_os_ai_workspace.Base.{
  ℕ, zero, suc, ◌+◌, ◌*◌, ◌/◌, ◌^◌, ◌≤◌, ◌<◌, min, max, ◌≡◌, refl, Bool, true, false, not, ◌&&◌,
  ◌||◌, List, [], ◌∷◌, if◌then◌else◌, arith,
}

pub data ConnectionState : Type 0 where
  unpaired pairing connecting registering connected_active : ConnectionState
  degraded_link offline revoked : ConnectionState

unfoldable pub same_connection : ConnectionState → ConnectionState → Bool
same_connection unpaired unpaired = true
same_connection pairing pairing = true
same_connection connecting connecting = true
same_connection registering registering = true
same_connection connected_active connected_active = true
same_connection degraded_link degraded_link = true
same_connection offline offline = true
same_connection revoked revoked = true
same_connection _ _ = false

pub record BackoffConfig : Type 0 where
  pub initial_delay_ms : ℕ
  pub max_delay_ms : ℕ
  pub multiplier : ℕ

pub record Machine : Type 0 where
  pub current_state : ConnectionState
  pub attempt_count : ℕ

unfoldable pub is_offline : Machine → Bool
unfolding same_connection
is_offline m =
    same_connection m.current_state offline
    || same_connection m.current_state degraded_link
    || same_connection m.current_state unpaired
    || same_connection m.current_state revoked

unfoldable pub is_connected : Machine → Bool
unfolding same_connection
is_connected m = same_connection m.current_state connected_active

unfoldable pub reset_attempts : Machine → Machine
reset_attempts m = record m { attempt_count = 0 }

-- The machine afterwards, and whether the call returned; where it throws, the machine is the same.
unfoldable pub move_to : Machine → ConnectionState → Machine × Bool
unfolding same_connection reset_attempts
move_to m new =
    if same_connection m.current_state new
    then (m, true)
    else if same_connection m.current_state revoked && not (same_connection new unpaired)
    then (m, false)
    else if same_connection new connected_active
    then (reset_attempts (record m { current_state = new }), true)
    else (record m { current_state = new }, true)

unfoldable pub calculate_next_backoff : BackoffConfig → Machine → (draw : ℕ) → Machine × ℕ
calculate_next_backoff c m draw =
    let base = min c.max_delay_ms (c.initial_delay_ms * c.multiplier ^ m.attempt_count) in
    (
      record m { attempt_count = m.attempt_count + 1 },
      max c.initial_delay_ms (2 * (base * draw / 1000)),
    )

abbrev pub move_all : Machine → List ConnectionState → Machine
move_all m [] = m
move_all m (s ∷ ss) = move_all (move_to m s).0 ss

abbrev pub asks_for : ConnectionState → List ConnectionState → Bool
asks_for s [] = false
asks_for s (t ∷ ts) = same_connection t s || asks_for s ts

revoked-move_to :
    (m : Machine) (s : ConnectionState)
    → same_connection m.current_state revoked ≡ true
    → same_connection s unpaired ≡ false
    → (move_to m s).0 ≡ m
unfolding move_to
revoked-move_to m s h g = ground arith

-- A revoked connection is as it was after any calls of `transitionTo` none of which asks for
-- UNPAIRED.
pub revoked_until_unpaired :
    (m : Machine) (ss : List ConnectionState)
    → same_connection m.current_state revoked ≡ true
    → asks_for unpaired ss ≡ false
    → move_all m ss ≡ m
revoked_until_unpaired m [] h g = refl
revoked_until_unpaired m (s ∷ ss) h g =
    rw (revoked-move_to m s h (ground arith)) (revoked_until_unpaired m ss h (ground arith))

-- A product grows with its second factor.
mul-le : (a d k : ℕ) → d ≤ k → a * d ≤ a * k
mul-le zero d k h = omega arith
mul-le (suc a) d k h = let rest = mul-le a d k h in omega arith

-- For a random number below one, the delay before a reconnection is at least half the initial
-- delay, and at most the greater of that and the maximal delay; each call counts one attempt.
pub backoff_bounded :
    (c : BackoffConfig) (m : Machine) (draw : ℕ)
    → draw < 1000
    → let (m', delay) = calculate_next_backoff c m draw in
      (c.initial_delay_ms ≤ delay)
      × ((delay ≤ max c.initial_delay_ms (2 * c.max_delay_ms))
          × (m'.attempt_count ≡ suc m.attempt_count))
unfolding calculate_next_backoff
backoff_bounded c m draw h =
    let base = min c.max_delay_ms (c.initial_delay_ms * c.multiplier ^ m.attempt_count) in
    let bound = mul-le base draw 1000 (ground arith) in ground (arith, bound)
