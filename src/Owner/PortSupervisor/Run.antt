-- ===== src/Owner/PortSupervisor/Run.antt =====
-- src/owner/port-supervisor.ts: histories of the supervisor in which `#connect` goes on at once when
-- `#findPort` or `#open` has returned: nothing runs in between.
use serial_broker.Prelude.{ℕ, Bool, Option, List, [], ◌∷◌}
use serial_broker.Core.Errors.{ErrorCode}
use serial_broker.Owner.PortSupervisor.{
  start, retry, use_granted_port, follow_device, handle_device_connected,
  handle_device_disconnected, write_failed, fire_timer, stop, continue_stop, finish_close,
}
use serial_broker.Owner.PortSupervisor.State.{ConnectionState, Fields, Supervisor, Env}
use serial_broker.Owner.PortSupervisor.Resume.{
  teardown_settled, Listing, listing_settled, continue_found, Opening, opening_settled, Streams,
  continue_opened, Reading, reading_settled,
}

-- `findGrantedPort` has settled, and `#connect` has gone on.
unfoldable pub run_listing :
    Env → ℕ → Listing → Option ErrorCode → ConnectionState → Fields → Supervisor
run_listing env g result throws st f =
    let found : Supervisor = listing_settled env g result st f in
    continue_found env g throws found.state found.fields

-- `open()` has settled, and `#connect` has gone on.
unfoldable pub run_opening : Env → ℕ → Opening → Streams → ConnectionState → Fields → Supervisor
run_opening env g result streams st f =
    let opened : Supervisor = opening_settled env g result st f in
    continue_opened env g streams opened.state opened.fields

pub data Call : Type 0 where
  starts : Bool → Call
  retries_now grants_port device_connects stops stop_continues : Call
  follows : (ℕ → Bool) → Call
  device_disconnects : Option ℕ → Call
  timer_fires close_finishes teardown_settles : ℕ → Call
  listing_settles : ℕ → Listing → Option ErrorCode → Call
  opening_settles : ℕ → Opening → Streams → Call
  reading_settles : ℕ → Reading → Call
  write_fails : ℕ → ErrorCode → Call

unfoldable pub step_from : Env → Call → ConnectionState → Fields → Supervisor
step_from env (starts from_failed) st f = start env from_failed st f
step_from env retries_now st f = retry env st f
step_from env grants_port st f = use_granted_port env st f
step_from env device_connects st f = handle_device_connected env st f
step_from env stops st f = stop st f
step_from env stop_continues st f = continue_stop st f
step_from env (follows matches) st f = follow_device env matches st f
step_from env (device_disconnects port) st f = handle_device_disconnected env port st f
step_from env (timer_fires t) st f = fire_timer env t st f
step_from env (close_finishes k) st f = finish_close k st f
step_from env (teardown_settles g) st f = teardown_settled g st f
step_from env (listing_settles g result throws) st f = run_listing env g result throws st f
step_from env (opening_settles g result streams) st f = run_opening env g result streams st f
step_from env (reading_settles g result) st f = reading_settled env g result st f
step_from env (write_fails h code) st f = write_failed env h code st f

unfoldable pub run : List (Env × Call) → Supervisor → Supervisor
run [] s = s
run ((env, c) ∷ cs) s = run cs (step_from env c s.state s.fields)
