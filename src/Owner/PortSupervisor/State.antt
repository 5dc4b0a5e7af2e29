-- ===== src/Owner/PortSupervisor/State.antt =====
-- src/owner/port-supervisor.ts: the state of `PortSupervisor`, without the writes. Ports, timers and
-- closes in progress are opaque: numbers. A connection attempt is an asynchronous function: what it
-- awaits is a `Continuation`, kept under the generation of the attempt. `trace` is what the supervisor
-- did to the platform and told its owner, newest first; the code acts on none of it.
use serial_broker.Prelude.{
  ℕ, Bool, true, false, Option, none, List, [], ◌∷◌, ◌==◌, ◌||◌, if◌then◌else◌, Table,
}
use serial_broker.Core.Errors.{ErrorCode}
use serial_broker.Core.Backoff
use serial_broker.Core.Backoff.{BackoffState}

-- Those values of `SerialBrokerStatus` that a supervisor has.
pub data Status : Type 0 where
  is_idle is_awaiting_permission is_connecting is_open is_reconnecting has_failed : Status

abbrev pub status_eq : Status → Status → Bool
status_eq is_idle is_idle = true
status_eq is_awaiting_permission is_awaiting_permission = true
status_eq is_connecting is_connecting = true
status_eq is_open is_open = true
status_eq is_reconnecting is_reconnecting = true
status_eq has_failed has_failed = true
status_eq _ _ = false

-- `open` is `connected`, with the generation of its attempt for the identity of the state object.
pub data ConnectionState : Type 0 where
  idle awaiting_permission listing failed stopped : ConnectionState
  opening : ℕ → ConnectionState
  connected : ℕ → ℕ → ConnectionState
  reconnecting : ℕ → ConnectionState

abbrev pub is_stopped : ConnectionState → Bool
is_stopped stopped = true
is_stopped _ = false

-- What an attempt awaits, with its number: the closes under way when it began, the list of the granted
-- ports, `open()`, or a read. `has_found` and `has_opened` await the return of `#findPort` and
-- `#open`, which have come to their end.
pub data Continuation : Type 0 where
  awaits_teardown : ℕ → List ℕ → Continuation
  awaits_listing : ℕ → Continuation
  has_found : ℕ → ℕ → Continuation
  awaits_open : ℕ → ℕ → Continuation
  has_opened : ℕ → ℕ → Continuation
  awaits_read : ℕ → Continuation

-- What `stop()` awaits: the writes in the queue, the closes under way, the answers of the writes.
pub data StopPhase : Type 0 where
  not_stopping answering has_stopped : StopPhase
  draining : ℕ → StopPhase
  closing_down : List ℕ → StopPhase

pub data SupervisorEvent : Type 0 where
  status_changed : Status → SupervisorEvent
  reported : ErrorCode → Bool → SupervisorEvent
  lists_ports : ℕ → SupervisorEvent
  opens_port : ℕ → ℕ → SupervisorEvent
  pushes : ℕ → List ℕ → SupervisorEvent
  flushes : ℕ → SupervisorEvent
  close_began : ℕ → SupervisorEvent
  close_ended : ℕ → SupervisorEvent

-- Every field but the state.
pub record Fields : Type 0 where
  pub status : Status
  pub connected_while_listing : Bool
  pub found_port : Option ℕ
  pub found_port_detached : Bool
  pub closing : List ℕ
  pub next_close : ℕ
  pub backoff : BackoffState
  pub generation : ℕ
  pub continuations : Table Continuation
  pub timers : List ℕ
  pub next_timer : ℕ
  pub next_attempt_at : Option ℕ
  pub opened_at : Option ℕ
  pub stopping : StopPhase
  pub trace : List SupervisorEvent

pub record Supervisor : Type 0 where
  pub state : ConnectionState
  pub fields : Fields

abbrev pub at : ConnectionState → Fields → Supervisor
at st f = record { state = st; fields = f }

abbrev pub new : Supervisor
new = at idle (record {
  status = is_idle;
  connected_while_listing = false;
  found_port = none;
  found_port_detached = false;
  closing = [];
  next_close = 0;
  backoff = Backoff.new;
  generation = 0;
  continuations = [];
  timers = [];
  next_timer = 0;
  next_attempt_at = none;
  opened_at = none;
  stopping = not_stopping;
  trace = [];
})

-- The configuration, the readings of the clocks, and `computeBackoffDelayMs` with the random draw.
pub record Env : Type 0 where
  pub auto_reconnect : Bool
  pub max_attempts : Option ℕ
  pub stable_after_ms : ℕ
  pub delay_ms : ℕ → ℕ
  pub now : ℕ
  pub monotonic_now : ℕ

-- The closes under way, by what has happened.
abbrev pub has_id : ℕ → List ℕ → Bool
has_id k [] = false
has_id k (j ∷ js) = j == k || has_id k js

abbrev pub drop_id : ℕ → List ℕ → List ℕ
drop_id k [] = []
drop_id k (j ∷ js) = let rest = drop_id k js in if j == k then rest else j ∷ rest

-- One of the first list is in the second.
abbrev pub meets : List ℕ → List ℕ → Bool
meets [] ks = false
meets (j ∷ js) ks = has_id j ks || meets js ks
