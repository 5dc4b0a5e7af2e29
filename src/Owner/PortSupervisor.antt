-- ===== src/Owner/PortSupervisor.antt =====
-- src/owner/port-supervisor.ts: `PortSupervisor`, the state machine that keeps the port open. Each
-- operation takes the state and the other fields apart, and the readings it makes. What an attempt
-- does once something it awaits has settled is an operation of its own: it checks the generation
-- where the code does.
pub mod State
pub mod Resume
pub mod Run
pub mod Invariant
pub mod Begins
pub mod Attempts
pub mod Calls
pub mod Platform
pub mod Stops
pub mod Settles
pub mod Connects
pub mod Opens
pub mod Histories
pub mod Stale
pub mod Ends
pub mod StopEnds
pub mod Losses
pub mod Gaps
mod Tests
use serial_broker.Prelude.{
  ℕ, suc, ◌+◌, Bool, true, false, not, ◌&&◌, ◌||◌, Option, none, some, List, [], ◌∷◌, ◌++◌, ◌==◌,
  if◌then◌else◌, lookup, insert, remove,
}
use serial_broker.Core.Errors.{ErrorCode, is_retryable_code}
use serial_broker.Core.Errors
use serial_broker.Core.Backoff
use serial_broker.Core.Backoff.{
  record_attempt, record_connected, record_disconnected, has_exhausted, retry_index,
}
use serial_broker.Owner.PortSupervisor.State.{
  Status, is_idle, is_awaiting_permission, is_connecting, is_open, is_reconnecting, has_failed,
  status_eq, ConnectionState, idle, awaiting_permission, listing, failed, stopped, opening,
  connected, reconnecting, is_stopped, Continuation, awaits_teardown, awaits_listing, has_found,
  awaits_open, has_opened, awaits_read, StopPhase, not_stopping, draining, closing_down, answering,
  has_stopped, SupervisorEvent, status_changed, reported, lists_ports, opens_port, pushes, flushes,
  close_began, close_ended, Fields, Supervisor, at, Env, has_id, drop_id, meets,
}

abbrev pub emit : SupervisorEvent → Fields → Fields
emit e f = record f { trace = e ∷ f.trace }

-- `#setStatus`
abbrev pub set_status : Status → Fields → Fields
set_status status f =
    if status_eq f.status status
    then f
    else emit (status_changed status) (record f { status = status })

-- `#report`: with `autoReconnect: false` nothing is retried.
abbrev pub report : Env → ErrorCode → Fields → Fields
report env code f = emit (reported code (is_retryable_code code && env.auto_reconnect)) f

-- `#trackTeardown` of a close that begins here.
abbrev pub track_teardown : Fields → Fields
track_teardown f = record f {
  closing = f.closing ++ f.next_close ∷ [];
  next_close = suc f.next_close;
  trace = close_began f.next_close ∷ f.trace;
}

abbrev pub clear_timer : ℕ → Fields → Fields
clear_timer t f = record f { timers = drop_id t f.timers }

abbrev pub keep_continuation : ℕ → Continuation → Fields → Fields
keep_continuation g c f = record f { continuations = insert g c f.continuations }

-- `#isStale`
abbrev pub is_stale : ℕ → ConnectionState → Fields → Bool
is_stale g st f = not (f.generation == g) || is_stopped st

-- `#giveUp`
abbrev pub give_up : Fields → Supervisor
give_up f = at failed (set_status has_failed (record f { next_attempt_at = none }))

abbrev schedule_reconnect : Env → Fields → Supervisor
schedule_reconnect env f = at (reconnecting f.next_timer) (
    set_status is_reconnecting (record f {
      timers = f.next_timer ∷ f.timers;
      next_timer = suc f.next_timer;
      next_attempt_at = some (env.now + env.delay_ms (retry_index f.backoff));
    }))

-- `#recordFailedAttempt`
abbrev pub record_failed_attempt : Env → Fields → Supervisor
record_failed_attempt env f =
    if not env.auto_reconnect
    then give_up f
    else let g : Fields = record f {
      backoff = record_disconnected env.monotonic_now env.stable_after_ms f.backoff;
    } in
      if has_exhausted env.max_attempts g.backoff
      then at failed (
          report env ErrorCode.reconnect_exhausted
            (set_status has_failed (record g { next_attempt_at = none })))
      else schedule_reconnect env g

-- What `#handleConnectionLoss` does next.
pub data Next : Type 0 where
  retries gives_up : Next

-- `failure.isRetryable ? 'retry' : 'give-up'`
abbrev pub next_of : ErrorCode → Next
next_of code = if is_retryable_code code then retries else gives_up

abbrev pub flush_received : ConnectionState → Fields → Fields
flush_received (connected p g) f = emit (flushes g) f
flush_received _ f = f

-- The close of what the state left behind: `#closeConnection` or `#closeWhenOpened`.
abbrev pub close_previous : ConnectionState → Fields → Fields
close_previous (connected p g) f = track_teardown f
close_previous (opening p) f = track_teardown f
close_previous _ f = f

abbrev pub has_nothing_to_lose : ConnectionState → Bool
has_nothing_to_lose stopped = true
has_nothing_to_lose (reconnecting t) = true
has_nothing_to_lose _ = false

abbrev after_loss : Env → Next → Fields → Supervisor
after_loss env retries f = record_failed_attempt env f
after_loss env gives_up f = give_up f

-- `#handleConnectionLoss`
pub lose_connection : Env → ErrorCode → Next → ConnectionState → Fields → Supervisor
lose_connection env code next st f =
    if has_nothing_to_lose st
    then at st f
    else let flushed : Fields = flush_received st f in
      after_loss env next (
        close_previous st
          (report env code (record flushed { generation = suc f.generation; opened_at = none })))

-- The listing of the granted ports begins.
abbrev pub begin_listing : ℕ → ℕ → Fields → Fields
begin_listing g attempt f = record f {
  connected_while_listing = false;
  continuations = insert g (awaits_listing attempt) f.continuations;
  trace = lists_ports g ∷ f.trace;
}

-- `#findPort`, up to its first `await`.
abbrev pub find_port : ℕ → ℕ → List ℕ → Fields → Fields
find_port g attempt [] f = begin_listing g attempt f
find_port g attempt (k ∷ ks) f = keep_continuation g (awaits_teardown attempt (k ∷ ks)) f

-- `#connect` up to its first `await`, in any state but `stopped`.
pub begin_attempt : Env → Fields → Supervisor
begin_attempt env f =
    let g : ℕ = suc f.generation in
    let started : Fields =
      set_status is_connecting
        (record f { generation = g; backoff = record_attempt f.backoff; next_attempt_at = none }) in
    at listing (find_port g started.backoff.attempt f.closing started)

pub connect : Env → ConnectionState → Fields → Supervisor
connect env stopped f = at stopped f
connect env _ f = begin_attempt env f

-- `start`, from `failed` if the flag says so.
pub start : Env → Bool → ConnectionState → Fields → Supervisor
start env from_failed idle f =
    if from_failed then at failed (set_status has_failed f) else begin_attempt env f
start env from_failed st f = at st f

abbrev pub reset_backoff : Fields → Fields
reset_backoff f = record f { backoff = Backoff.reset f.backoff }

-- `retry`
pub retry : Env → ConnectionState → Fields → Supervisor
retry env failed f = begin_attempt env (reset_backoff f)
retry env awaiting_permission f = begin_attempt env (reset_backoff f)
retry env st f = at st f

-- `useGrantedPort`
pub use_granted_port : Env → ConnectionState → Fields → Supervisor
use_granted_port env stopped f = at stopped f
use_granted_port env (connected p g) f = at (connected p g) f
use_granted_port env (opening p) f = at (opening p) f
use_granted_port env (reconnecting t) f = begin_attempt env (reset_backoff (clear_timer t f))
use_granted_port env _ f = begin_attempt env (reset_backoff f)

-- What `followDevice` closes, clears or cancels before it looks for the new device.
abbrev pub leave_device : ConnectionState → Fields → Fields
leave_device (reconnecting t) f = clear_timer t f
leave_device st f = close_previous st (flush_received st f)

abbrev pub forget_device : Fields → Fields
forget_device f = record f {
  generation = suc f.generation;
  opened_at = none;
  next_attempt_at = none;
  found_port = none;
  found_port_detached = false;
}

-- `followDevice` to a device that the port at hand is not.
pub change_device : Env → ConnectionState → Fields → Supervisor
change_device env stopped f = at stopped f
change_device env st f = begin_attempt env (reset_backoff (leave_device st (forget_device f)))

-- `followDevice`; the function is `matchesDevice` for the device in effect.
pub follow_device : Env → (ℕ → Bool) → ConnectionState → Fields → Supervisor
follow_device env matches (connected p g) f =
    if matches p then at (connected p g) f else change_device env (connected p g) f
follow_device env matches (opening p) f =
    if matches p then at (opening p) f else change_device env (opening p) f
follow_device env matches st f = change_device env st f

-- `handleDeviceConnected`, once the device is known not to be away.
abbrev revive : Env → ConnectionState → Fields → Supervisor
revive env listing f = at listing (record f { connected_while_listing = true })
revive env (reconnecting t) f = begin_attempt env (clear_timer t f)
revive env failed f =
    if not env.auto_reconnect then at failed f else begin_attempt env (reset_backoff f)
revive env awaiting_permission f = begin_attempt env (reset_backoff f)
revive env st f = at st f

pub handle_device_connected : Env → ConnectionState → Fields → Supervisor
handle_device_connected env st f = revive env st (record f { found_port_detached = false })

abbrev device_gone : Env → ConnectionState → Fields → Supervisor
device_gone env (connected p g) f =
    lose_connection env ErrorCode.device_disconnected retries (connected p g) f
device_gone env (opening p) f =
    lose_connection env ErrorCode.device_disconnected retries (opening p) f
device_gone env awaiting_permission f = record_failed_attempt env f
device_gone env st f = at st f

-- A write that the device has rejected, of the connection of generation `h`, if it is still the one.
pub write_failed : Env → ℕ → ErrorCode → ConnectionState → Fields → Supervisor
write_failed env h code (connected p g) f =
    if g == h then lose_connection env code retries (connected p g) f else at (connected p g) f
write_failed env h code st f = at st f

-- The port of the event, which may be `null`, is not the one that was found.
abbrev pub concerns_other : Option ℕ → Option ℕ → Bool
concerns_other none port = true
concerns_other (some found) none = false
concerns_other (some found) (some port) = not (port == found)

-- `handleDeviceDisconnected`
pub handle_device_disconnected : Env → Option ℕ → ConnectionState → Fields → Supervisor
handle_device_disconnected env port st f =
    if concerns_other f.found_port port
    then at st f
    else device_gone env st (record f { found_port_detached = true })

-- The callback of a reconnect timer, in the state it finds.
abbrev timer_ran : Env → ConnectionState → Fields → Supervisor
timer_ran env (reconnecting t) f = begin_attempt env f
timer_ran env st f = at st f

-- The reconnect timer `t` fires, if it is set.
pub fire_timer : Env → ℕ → ConnectionState → Fields → Supervisor
fire_timer env t st f = if has_id t f.timers then timer_ran env st (clear_timer t f) else at st f

-- A deletion of what an attempt awaited: it has settled.
abbrev pub drop_continuation : ℕ → Fields → Fields
drop_continuation g f = record f { continuations = remove g f.continuations }

-- `stop`, up to its first `await`; what runs then is in `StopPhase`.
abbrev pub stop_now : Fields → Fields
stop_now f = record f { generation = suc f.generation; next_attempt_at = none; opened_at = none }

abbrev pub awaits_closes : Fields → Fields
awaits_closes f = record f { stopping = closing_down f.closing }

abbrev begin_stop : ConnectionState → Fields → Supervisor
begin_stop (connected p g) f =
    at stopped (record (flush_received (connected p g) (stop_now f)) { stopping = draining g })
begin_stop (opening p) f = at stopped (awaits_closes (track_teardown (stop_now f)))
begin_stop (reconnecting t) f = at stopped (awaits_closes (clear_timer t (stop_now f)))
begin_stop _ f = at stopped (awaits_closes (stop_now f))

-- `stopping ??= …`
abbrev stop_once : StopPhase → ConnectionState → Fields → Supervisor
stop_once not_stopping st f = begin_stop st f
stop_once _ st f = at st f

pub stop : ConnectionState → Fields → Supervisor
stop st f = stop_once f.stopping st f

-- What `#stop` awaits has settled, if it is what it awaits.
abbrev stop_goes_on : StopPhase → ConnectionState → Fields → Supervisor
stop_goes_on (draining g) st f = at st (awaits_closes (track_teardown f))
stop_goes_on (closing_down ids) st f =
    if meets ids f.closing then at st f else at st (record f { stopping = answering })
stop_goes_on answering st f = at st (set_status is_idle (record f { stopping = has_stopped }))
stop_goes_on _ st f = at st f

pub continue_stop : ConnectionState → Fields → Supervisor
continue_stop st f = stop_goes_on f.stopping st f

-- The close `k` has come to its end, if it is under way.
pub finish_close : ℕ → ConnectionState → Fields → Supervisor
finish_close k st f =
    if has_id k f.closing
    then at st (emit (close_ended k) (record f { closing = drop_id k f.closing }))
    else at st f
