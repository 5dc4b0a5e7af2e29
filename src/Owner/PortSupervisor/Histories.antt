-- ===== src/Owner/PortSupervisor/Histories.antt =====
-- Every history of the supervisor, from the constructor on.
use serial_broker.Prelude.{List, [], ◌∷◌}
use serial_broker.Owner.PortSupervisor.State.{ConnectionState, Fields, Supervisor, Env, new}
use serial_broker.Owner.PortSupervisor.Run.{
  Call, starts, retries_now, grants_port, device_connects, stops, stop_continues, follows,
  device_disconnects, timer_fires, close_finishes, teardown_settles, listing_settles,
  opening_settles, reading_settles, write_fails, step_from, run,
}
use serial_broker.Owner.PortSupervisor.Invariant.{Inv, Holds, new-Holds}
use serial_broker.Owner.PortSupervisor.Calls.{
  start-Holds, retry-Holds, use_granted_port-Holds, follow_device-Holds,
}
use serial_broker.Owner.PortSupervisor.Platform.{
  handle_device_connected-Holds, handle_device_disconnected-Holds, write_failed-Holds,
  fire_timer-Holds,
}
use serial_broker.Owner.PortSupervisor.Stops.{stop-Holds, continue_stop-Holds, finish_close-Holds}
use serial_broker.Owner.PortSupervisor.Settles.{teardown_settled-Holds, reading_settled-Holds}
use serial_broker.Owner.PortSupervisor.Connects.{run_listing-Holds}
use serial_broker.Owner.PortSupervisor.Opens.{run_opening-Holds}

pub step_from-Holds :
    (env : Env) (c : Call) (st : ConnectionState) (f : Fields)
    → Inv st f
    → Holds (step_from env c st f)
unfolding step_from
step_from-Holds env (starts from_failed) st f v = start-Holds env from_failed st f v
step_from-Holds env retries_now st f v = retry-Holds env st f v
step_from-Holds env grants_port st f v = use_granted_port-Holds env st f v
step_from-Holds env device_connects st f v = handle_device_connected-Holds env st f v
step_from-Holds env stops st f v = stop-Holds st f v
step_from-Holds env stop_continues st f v = continue_stop-Holds st f v
step_from-Holds env (follows matches) st f v = follow_device-Holds env matches st f v
step_from-Holds env (device_disconnects port) st f v =
    handle_device_disconnected-Holds env port st f v
step_from-Holds env (timer_fires t) st f v = fire_timer-Holds env t st f v
step_from-Holds env (close_finishes k) st f v = finish_close-Holds k st f v
step_from-Holds env (teardown_settles g) st f v = teardown_settled-Holds g st f v
step_from-Holds env (listing_settles g result throws) st f v =
    run_listing-Holds env g result throws st f v
step_from-Holds env (opening_settles g result streams) st f v =
    run_opening-Holds env g result streams st f v
step_from-Holds env (reading_settles g result) st f v = reading_settled-Holds env g result st f v
step_from-Holds env (write_fails h code) st f v = write_failed-Holds env h code st f v

pub run-Holds : (calls : List (Env × Call)) (s : Supervisor) → Holds s → Holds (run calls s)
unfolding run
run-Holds [] s v = v
run-Holds ((env, c) ∷ cs) s v = run-Holds cs _ (step_from-Holds env c s.state s.fields v)

-- After any calls, of the owner and of the platform, and any writes that fail, in any order: the state
-- has exactly what moves it on (the one continuation of its attempt, or its one reconnect timer, or
-- neither), the status that the owner was told last is that of the state unless it is stopped, a port
-- is open or being opened only with no close under way, and `stop()` has answered only with no close
-- under way. Every return of `#findPort` and `#open` is taken up at once.
pub run-new-Holds : (calls : List (Env × Call)) → Holds (run calls new)
run-new-Holds calls = run-Holds calls new new-Holds
