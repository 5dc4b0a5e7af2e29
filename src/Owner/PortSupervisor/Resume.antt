-- ===== src/Owner/PortSupervisor/Resume.antt =====
-- src/owner/port-supervisor.ts: what a connection attempt does once something it awaits has settled.
-- An operation names the generation of the attempt; it does nothing if that attempt awaits something
-- else.
use serial_broker.Prelude.{ℕ, false, Option, none, some, List, if◌then◌else◌, lookup}
use serial_broker.Core.Errors.{ErrorCode}
use serial_broker.Core.Backoff.{record_connected}
use serial_broker.Owner.PortSupervisor.{
  emit, set_status, report, keep_continuation, drop_continuation, is_stale, give_up,
  record_failed_attempt, lose_connection, retries, next_of, begin_listing,
}
use serial_broker.Owner.PortSupervisor.State.{
  is_awaiting_permission, is_open, ConnectionState, awaiting_permission, opening, connected,
  Continuation, awaits_teardown, awaits_listing, has_found, awaits_open, has_opened, awaits_read,
  opens_port, pushes, Fields, Supervisor, at, Env, meets,
}

-- The closes that the attempt awaited have all come to their end.
abbrev pub teardown_resumes : ℕ → Continuation → ConnectionState → Fields → Supervisor
teardown_resumes g (awaits_teardown attempt ids) st f =
    if meets ids f.closing
    then at st f
    else if is_stale g st f
    then at st (drop_continuation g f)
    else at st (begin_listing g attempt f)
teardown_resumes g _ st f = at st f

unfoldable pub teardown_settled : ℕ → ConnectionState → Fields → Supervisor
teardown_settled g st f = elim (lookup g f.continuations) [
  | none ↦ at st f
  | some c ↦ teardown_resumes g c st f
]

-- What `findGrantedPort` gave, within its deadline.
pub data Listing : Type 0 where
  lists_port : Option ℕ → Listing
  times_out refuses : Listing

-- No port of the device is granted, as far as the list says.
abbrev pub found_nothing : Env → ℕ → ℕ → ConnectionState → Fields → Supervisor
found_nothing env g attempt st f =
    if f.connected_while_listing
    then at st (begin_listing g attempt f)
    else if f.found_port_detached
    then record_failed_attempt env f
    else at awaiting_permission (set_status is_awaiting_permission f)

abbrev pub take_listing : Env → ℕ → ℕ → Listing → ConnectionState → Fields → Supervisor
take_listing env g attempt (lists_port (some p)) st f =
    at st (keep_continuation g (has_found attempt p) f)
take_listing env g attempt (lists_port none) st f = found_nothing env g attempt st f
take_listing env g attempt times_out st f = lose_connection env ErrorCode.open_timeout retries st f
take_listing env g attempt refuses st f = give_up (report env ErrorCode.web_serial_unavailable f)

abbrev pub listing_resumes :
    Env → ℕ → Listing → Continuation → ConnectionState → Fields → Supervisor
listing_resumes env g result (awaits_listing attempt) st f =
    if is_stale g st f
    then at st (drop_continuation g f)
    else take_listing env g attempt result st (drop_continuation g f)
listing_resumes env g result _ st f = at st f

unfoldable pub listing_settled : Env → ℕ → Listing → ConnectionState → Fields → Supervisor
listing_settled env g result st f = elim (lookup g f.continuations) [
  | none ↦ at st f
  | some c ↦ listing_resumes env g result c st f
]

-- `port.open()` throws the error, as `mapOpenError` reports it, or gives a promise.
abbrev pub open_threw : Env → ℕ → ErrorCode → ConnectionState → Fields → Supervisor
open_threw env g code st f =
    if is_stale g st f then at st f else lose_connection env code (next_of code) st f

abbrev pub found : ℕ → ℕ → Fields → Fields
found g p f = emit (opens_port g p) (record f { found_port = some p; found_port_detached = false })

-- `#open`, up to its `await`. The state that it leaves is not looked at.
abbrev pub open_port : Env → ℕ → ℕ → ℕ → Option ErrorCode → ConnectionState → Fields → Supervisor
open_port env g attempt p none st f =
    at (opening p) (keep_continuation g (awaits_open attempt p) (found g p f))
open_port env g attempt p (some code) st f = open_threw env g code st (found g p f)

abbrev pub found_resumes :
    Env → ℕ → Option ErrorCode → Continuation → ConnectionState → Fields → Supervisor
found_resumes env g throws (has_found attempt p) st f =
    open_port env g attempt p throws st (drop_continuation g f)
found_resumes env g throws _ st f = at st f

-- `#findPort` has returned a port, and `#connect` goes on.
unfoldable pub continue_found : Env → ℕ → Option ErrorCode → ConnectionState → Fields → Supervisor
continue_found env g throws st f = elim (lookup g f.continuations) [
  | none ↦ at st f
  | some c ↦ found_resumes env g throws c st f
]

-- What `open()` gave, within its deadline, a rejection as `mapOpenError` reports it.
pub data Opening : Type 0 where
  opens : Opening
  rejects : ErrorCode → Opening

abbrev pub take_opening : Env → ℕ → ℕ → ℕ → Opening → ConnectionState → Fields → Supervisor
take_opening env g attempt p opens st f = at st (keep_continuation g (has_opened attempt p) f)
take_opening env g attempt p (rejects code) st f = lose_connection env code (next_of code) st f

abbrev pub opening_resumes :
    Env → ℕ → Opening → Continuation → ConnectionState → Fields → Supervisor
opening_resumes env g result (awaits_open attempt p) st f =
    if is_stale g st f
    then at st (drop_continuation g f)
    else take_opening env g attempt p result st (drop_continuation g f)
opening_resumes env g result _ st f = at st f

unfoldable pub opening_settled : Env → ℕ → Opening → ConnectionState → Fields → Supervisor
opening_settled env g result st f = elim (lookup g f.continuations) [
  | none ↦ at st f
  | some c ↦ opening_resumes env g result c st f
]

-- The streams of the port that was opened; taking them may throw.
pub data Streams : Type 0 where
  has_streams lacks_streams : Streams
  throws_at_streams : ErrorCode → Streams

-- `#startReading`. The state that it leaves is not looked at.
abbrev pub start_reading : Env → ℕ → ℕ → Streams → ConnectionState → Fields → Supervisor
start_reading env g p has_streams st f = at (connected p g) (
    keep_continuation g (awaits_read p) (
      set_status is_open (record f {
        backoff = record_connected env.monotonic_now f.backoff;
        opened_at = some env.now;
      })))
start_reading env g p lacks_streams st f = lose_connection env ErrorCode.open_failed retries st f
start_reading env g p (throws_at_streams code) st f = open_threw env g code st f

abbrev pub opened_resumes : Env → ℕ → Streams → Continuation → ConnectionState → Fields → Supervisor
opened_resumes env g streams (has_opened attempt p) st f =
    start_reading env g p streams st (drop_continuation g f)
opened_resumes env g streams _ st f = at st f

-- `#open` has returned `true`, and `#connect` goes on.
unfoldable pub continue_opened : Env → ℕ → Streams → ConnectionState → Fields → Supervisor
continue_opened env g streams st f = elim (lookup g f.continuations) [
  | none ↦ at st f
  | some c ↦ opened_resumes env g streams c st f
]

-- What `read()` gave, a rejection as `mapReadError` reports it.
pub data Reading : Type 0 where
  reads : List ℕ → Reading
  ends : Reading
  fails : ErrorCode → Reading

abbrev pub take_reading : Env → ℕ → Reading → ConnectionState → Fields → Supervisor
take_reading env g (reads bytes) st f = at st (emit (pushes g bytes) f)
take_reading env g ends st f =
    lose_connection env ErrorCode.device_disconnected retries st (drop_continuation g f)
take_reading env g (fails code) st f = lose_connection env code retries st (drop_continuation g f)

abbrev pub reading_resumes :
    Env → ℕ → Reading → Continuation → ConnectionState → Fields → Supervisor
reading_resumes env g result (awaits_read p) st f =
    if is_stale g st f then at st (drop_continuation g f) else take_reading env g result st f
reading_resumes env g result _ st f = at st f

unfoldable pub reading_settled : Env → ℕ → Reading → ConnectionState → Fields → Supervisor
reading_settled env g result st f = elim (lookup g f.continuations) [
  | none ↦ at st f
  | some c ↦ reading_resumes env g result c st f
]
