-- ===== src/Client/Deadline/Laws.antt =====
-- When `scheduleDeadline` of src/client/pending-writes.ts runs.
use serial_broker.Prelude.{ℕ, ◌+◌, ◌<◌, ◌≤◌, ◌≡◌, refl, true, false, none, some, arith}
use serial_broker.Client.Deadline.{Deadline, late_deadline_ms, schedule_deadline, run_timer, cancel}

-- A deadline whose timer runs less than a second after it was due decides at that run, and leaves
-- no timer set.
pub run_timer_on_time :
    (now delay ran : ℕ)
    → ran < now + delay + late_deadline_ms
    → ((run_timer ran (schedule_deadline now delay)).1 ≡ true)
      × ((run_timer ran (schedule_deadline now delay)).0.handle ≡ none)
unfolding run_timer schedule_deadline
run_timer_on_time now delay ran h = ground arith

-- A deadline whose timer runs a second or more after it was due does not decide at that run: it
-- sets one more timer, with no delay, and decides when that runs, at whatever time.
pub run_timer_late :
    (now delay ran again : ℕ)
    → now + delay + late_deadline_ms ≤ ran
    → let first = run_timer ran (schedule_deadline now delay) in
      (first.1 ≡ false)
      × (first.0.handle ≡ some (record { delay_ms = 0; may_yield = false }))
      × ((run_timer again first.0).1 ≡ true)
      × ((run_timer again first.0).0.handle ≡ none)
unfolding run_timer schedule_deadline
run_timer_late now delay ran again h = ground arith

-- A cancelled deadline never decides.
pub run_timer-cancel : (now : ℕ) (d : Deadline) → run_timer now (cancel d) ≡ (cancel d, false)
unfolding run_timer cancel
run_timer-cancel now d = refl
