-- ===== src/Owner/PortSupervisor/Tests.antt =====
-- Examples of the supervisor: one connection that is lost, one that is stopped, one that is stopped
-- between two steps.
use serial_broker.Prelude.{
  ◌*◌, true, false, none, some, List, [], ◌∷◌, ◌++◌, ◌≡◌, ◌⊎◌, ◌&&◌, refl, subst, lookup, insert,
  remove,
}
use serial_broker.Core.Errors.{ErrorCode, is_retryable_code}
use serial_broker.Owner.PortSupervisor.{
  lose_connection, retries, drop_continuation, stop, begin_attempt, start, use_granted_port,
  is_stale,
}
use serial_broker.Core.Backoff.{record_attempt, record_connected}
use serial_broker.Owner.PortSupervisor.State.{
  is_idle, stopped, opening, connected, has_found, has_stopped, is_stopped, opens_port, Supervisor,
  close_began, reported, flushes, Env, at, new,
}
use serial_broker.Owner.PortSupervisor.Resume.{
  lists_port, opens, has_streams, reads, ends, listing_settled, continue_found, opening_settled,
  continue_opened, reading_settled,
}
use serial_broker.Owner.PortSupervisor.Run.{
  Call, starts, stops, listing_settles, opening_settles, reading_settles, device_disconnects,
  write_fails, grants_port, step_from, run, run_listing, run_opening,
}
use serial_broker.Owner.PortSupervisor.Invariant.{Holds, Inv}
use serial_broker.Owner.PortSupervisor.Histories.{run-new-Holds}
use serial_broker.Owner.PortSupervisor.Stale.{step_from-stale}
use serial_broker.Owner.PortSupervisor.Ends.{searches, run-stopped}
use serial_broker.Owner.PortSupervisor.StopEnds.{stop_drained, closes_end, run-stop}
use serial_broker.Owner.PortSupervisor.Losses.{
  Follows, counted_loss, IsResigned, IsUnchanged, lose_connection-once,
}
use serial_broker.Owner.PortSupervisor.Gaps.{continue_found-stop}
use serial_broker.Owner.PortSupervisor.Run.{stop_continues}

abbrev env : Env
env = record {
  auto_reconnect = true;
  max_attempts = none;
  stable_after_ms = 10000;
  delay_ms = λ n. 500 * n;
  now = 1000;
  monotonic_now = 50;
}

-- The port 7 is found, opened and read from.
abbrev connecting_calls : List (Env × Call)
connecting_calls =
    (env, starts false)
    ∷ (env, listing_settles 1 (lists_port (some 7)) none)
    ∷ (env, opening_settles 1 opens has_streams)
    ∷ (env, reading_settles 1 (reads (65 ∷ [])))
    ∷ []

abbrev open_one : Supervisor
open_one = run connecting_calls new

open_one_state : open_one.state ≡ connected 7 1
unfolding run step_from start begin_attempt run_listing listing_settled continue_found run_opening
    opening_settled continue_opened reading_settled lookup insert remove record_attempt
    record_connected
open_one_state = refl

open_one-Inv : Inv (connected 7 1) open_one.fields
open_one-Inv = subst (λ st. Inv st open_one.fields) open_one_state (run-new-Holds connecting_calls)

run-new-Holds_example : Holds (run connecting_calls new)
run-new-Holds_example = run-new-Holds connecting_calls

-- It is lost: the read ends, and the platform says so too.
lose_connection-once_example :
    let lost =
      lose_connection env ErrorCode.device_disconnected retries (connected 7 1) open_one.fields in
    Follows
      (close_began open_one.fields.next_close
        ∷ reported ErrorCode.device_disconnected
            (is_retryable_code ErrorCode.device_disconnected && true)
        ∷ flushes 1
        ∷ open_one.fields.trace)
      lost.fields.trace
    × (lost.fields.closing ≡ open_one.fields.next_close ∷ [])
    × (lost.fields.backoff ≡ counted_loss env retries open_one.fields.backoff)
    × IsResigned lost.state
    × IsUnchanged lost (step_from env (reading_settles 1 ends) lost.state lost.fields)
    × IsUnchanged lost (step_from env (write_fails 1 ErrorCode.write_failed) lost.state lost.fields)
    × IsUnchanged lost (step_from env (device_disconnects (some 7)) lost.state lost.fields)
lose_connection-once_example =
    lose_connection-once env env ErrorCode.device_disconnected retries 7 1 1 ends (some 7)
      ErrorCode.write_failed open_one.fields open_one-Inv

-- It is stopped, and a late read and a permission change nothing.
abbrev stopping_calls : List (Env × Call)
stopping_calls = connecting_calls ++ (env, stops) ∷ []

abbrev stopped_one : Supervisor
stopped_one = run stopping_calls new

stopped_one_state : stopped_one.state ≡ stopped
unfolding run step_from start begin_attempt run_listing listing_settled continue_found run_opening
    opening_settled continue_opened reading_settled lookup insert remove record_attempt
    record_connected stop
stopped_one_state = refl

stopped_one_searches : searches stopped_one.fields.trace ≡ 2
unfolding run step_from start begin_attempt run_listing listing_settled continue_found run_opening
    opening_settled continue_opened reading_settled lookup insert remove record_attempt
    record_connected stop
stopped_one_searches = refl

abbrev late_calls : List (Env × Call)
late_calls = (env, reading_settles 1 ends) ∷ (env, grants_port) ∷ (env, stop_continues) ∷ []

run-stopped_example :
    ((run late_calls stopped_one).state ≡ stopped)
    × (searches (run late_calls stopped_one).fields.trace ≡ searches stopped_one.fields.trace)
run-stopped_example =
    run-stopped late_calls stopped_one (run-new-Holds stopping_calls) stopped_one_state

abbrev two_more : List (Env × Call)
two_more = (env, stop_continues) ∷ (env, stop_continues) ∷ []

run-stop_example :
    let drained = stop_drained env open_one in
    let after = run two_more (run (closes_end env drained.fields.closing) drained) in
    (after.fields.stopping ≡ has_stopped)
    × (is_stopped after.state ≡ true)
    × (after.fields.closing ≡ [])
    × (after.fields.status ≡ is_idle)
run-stop_example = run-stop env open_one (run-new-Holds connecting_calls)

-- A second attempt has begun, and the list of the first arrives.
abbrev twice_calls : List (Env × Call)
twice_calls = (env, starts false) ∷ (env, grants_port) ∷ []

abbrev twice : Supervisor
twice = run twice_calls new

twice_stale : is_stale 1 twice.state twice.fields ≡ true
unfolding run step_from start begin_attempt run_listing listing_settled continue_found run_opening
    opening_settled continue_opened reading_settled lookup insert remove record_attempt
    record_connected use_granted_port
twice_stale = refl

step_from-stale_example :
    (step_from env (listing_settles 1 (lists_port (some 7)) none) twice.state twice.fields
      ≡ at twice.state twice.fields)
    ⊎ (step_from env (listing_settles 1 (lists_port (some 7)) none) twice.state twice.fields
        ≡ at twice.state (drop_continuation 1 twice.fields))
step_from-stale_example =
    step_from-stale env (listing_settles 1 (lists_port (some 7)) none) 1 twice.state twice.fields
      (run-new-Holds twice_calls) refl twice_stale

-- The port 7 is found, and `stop()` runs before `#connect` goes on.
abbrev listing_one : Supervisor
listing_one = run ((env, starts false) ∷ []) new

abbrev found_one : Supervisor
found_one = listing_settled env 1 (lists_port (some 7)) listing_one.state listing_one.fields

found_one_awaits : lookup 1 found_one.fields.continuations ≡ some (has_found 1 7)
unfolding run step_from start begin_attempt run_listing listing_settled continue_found run_opening
    opening_settled continue_opened reading_settled lookup insert remove record_attempt
    record_connected
found_one_awaits = refl

continue_found-stop_example :
    let halted = stop found_one.state found_one.fields in
    let after = continue_found env 1 none halted.state halted.fields in
    (after.state ≡ opening 7) × (after.fields.trace ≡ opens_port 1 7 ∷ halted.fields.trace)
continue_found-stop_example =
    continue_found-stop env 1 1 7 found_one.state found_one.fields found_one_awaits
