-- ===== src/Client/Deadline.antt =====
-- src/client/pending-writes.ts: `scheduleDeadline`. Readings of the monotonic clock are numbers of
-- milliseconds. The timer itself is the browser's: `expire` is its callback, run at a reading that
-- the browser chooses, and a cleared timer is one whose callback never runs.
pub mod Laws
use serial_broker.Prelude.{
  ℕ, ◌+◌, ◌-◌, Bool, true, false, ◌&&◌, Option, none, some, leb, if◌then◌else◌,
}

abbrev pub late_deadline_ms : ℕ
late_deadline_ms = 1000

-- A timer that is set: the delay it was set with, and the argument its callback has for `mayYield`.
pub record Timer : Type 0 where
  pub delay_ms : ℕ
  pub may_yield : Bool

-- The variables that the closures of `scheduleDeadline` share.
pub record Deadline : Type 0 where
  pub due_at : ℕ
  pub handle : Option Timer

unfoldable pub schedule_deadline : ℕ → ℕ → Deadline
schedule_deadline now delay_ms = record {
  due_at = now + delay_ms;
  handle = some (record { delay_ms = delay_ms; may_yield = true });
}

-- `expire(mayYield)` at the reading `now`: the deadline that is left, and whether `onExpired` was
-- called. A reading before `due_at` is no lateness.
pub expire : ℕ → Bool → Deadline → Deadline × Bool
expire now may_yield d =
    if may_yield && leb late_deadline_ms (now - d.due_at)
    then (record d { handle = some (record { delay_ms = 0; may_yield = false }) }, false)
    else (record d { handle = none }, true)

-- The callback of the timer that is set, if one is.
unfoldable pub run_timer : ℕ → Deadline → Deadline × Bool
unfolding expire
run_timer now d = elim d.handle [ none ↦ (d, false) | some t ↦ expire now t.may_yield d ]

unfoldable pub cancel : Deadline → Deadline
cancel d = record d { handle = none }
