-- ===== src/Core/Backoff.antt =====
-- src/core/backoff.ts: `BackoffState`, which counts the attempts and the losses of one connection.
-- Readings of the monotonic clock are numbers of milliseconds. The delay itself, which is computed
-- from fractions, is not modelled.
pub mod Laws
mod Tests
use serial_broker.Prelude.{
  ℕ, suc, ◌+◌, ◌-◌, Bool, true, false, Option, none, some, List, [], ◌∷◌, if◌then◌else◌, leb,
}

pub record BackoffState : Type 0 where
  pub attempt : ℕ
  pub connected_at : Option ℕ
  pub losses : ℕ

abbrev pub new : BackoffState
new = record { attempt = 0; connected_at = none; losses = 0 }

-- `Math.max(losses - 1, 0)`: subtraction stops at 0.
unfoldable pub retry_index : BackoffState → ℕ
retry_index s = s.losses - 1

-- `maxAttempts` is a number or `Infinity`, which is `none`.
unfoldable pub has_exhausted : Option ℕ → BackoffState → Bool
has_exhausted none s = false
has_exhausted (some max_attempts) s = leb max_attempts s.attempt

unfoldable pub record_attempt : BackoffState → BackoffState
record_attempt s = record s { attempt = suc s.attempt }

unfoldable pub record_connected : ℕ → BackoffState → BackoffState
record_connected now s = record s { connected_at = some now }

-- `now - connectedAt >= stableAfterMs`
abbrev pub was_stable : Option ℕ → ℕ → ℕ → Bool
was_stable none now stable_after_ms = false
was_stable (some connected_at) now stable_after_ms = leb (connected_at + stable_after_ms) now

abbrev started_over : BackoffState → BackoffState
started_over s = record s { attempt = 0; losses = 0 }

unfoldable pub record_disconnected : ℕ → ℕ → BackoffState → BackoffState
record_disconnected now stable_after_ms s =
    let t : BackoffState =
      if was_stable s.connected_at now stable_after_ms then started_over s else s in
    record t { losses = suc t.losses; connected_at = none }

unfoldable pub reset : BackoffState → BackoffState
reset s = record { attempt = 0; losses = 0; connected_at = none }

pub data Call : Type 0 where
  attempts resets : Call
  connects : ℕ → Call
  disconnects : ℕ → Call

pub step : ℕ → Call → BackoffState → BackoffState
unfolding record_attempt record_connected record_disconnected reset
step stable_after_ms attempts s = record_attempt s
step stable_after_ms resets s = reset s
step stable_after_ms (connects now) s = record_connected now s
step stable_after_ms (disconnects now) s = record_disconnected now stable_after_ms s

-- A history, newest call first.
pub run : ℕ → List Call → BackoffState
unfolding step
run stable_after_ms [] = new
run stable_after_ms (c ∷ cs) = step stable_after_ms c (run stable_after_ms cs)
