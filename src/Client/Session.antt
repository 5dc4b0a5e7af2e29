-- ===== src/Client/Session.antt =====
-- src/client/configuration-session.ts: `ConfigurationSession`, which wires the parts of one
-- configuration in one tab together; its writes are in Writes. The election, the terms, the supervisor and
-- the place among the tabs call back by operations of their own. `handleMessage` hands a message to the
-- terms, and what is done once they believe it is an operation here.
pub mod State
pub mod Inbox
pub mod Order
pub mod Keeps
pub mod Steps
pub mod Ends
pub mod Histories
pub mod Over
pub mod Silence
pub mod Release
pub mod Kept
pub mod Terms
pub mod Writes
mod Tests
use serial_broker.Prelude.{
  ℕ, suc, Bool, true, false, not, ◌&&◌, ◌||◌, ◌==◌, Option, none, some, List, [], ◌∷◌,
  if◌then◌else◌, is_some, is_value,
}
use serial_broker.Core.Errors.{ErrorCode}
use serial_broker.Core.Errors
use serial_broker.Owner.PortMatcher.{
  DeviceFilter, ResolvedDevice, usb, non_usb, resolved, any, auto,
}
use serial_broker.Client.Session.State.{
  SessionStatus, idle, queued, awaiting_permission, connecting, opened, reconnecting, failed,
  released, same_status, SessionEvent, claims, says_goodbye, stops_supervisor, retries_supervisor,
  follows_device, takes_own, ends_own, starts_supervisor, broadcasts, requests_status, changes,
  reports, sends_error, receives, sends_data, disposes_terms, starts_slot, stops_slot,
  starts_election, stops_election, attaches, detaches, fails_writes, dispatches_waiting,
  resends_unstarted, resolves_device, ReleasePhase, not_releasing, awaits_stop, awaits_election,
  has_released, SessionSettings, Session, new_session, StatusMessage,
}

abbrev pub emit : SessionEvent → Session → Session
emit e s = record s { trace = e ∷ s.trace }

-- `#setStatus`
abbrev pub change_status : SessionStatus → Session → Session
change_status next s =
    emit (changes s.status next)
      (record s { status = next; after_gap = not (same_status next opened) || s.after_gap })

abbrev pub set_status : SessionStatus → Session → Session
set_status next s =
    if same_status s.status next || (s.is_released && not (same_status next released))
    then s
    else if same_status next opened
    then emit dispatches_waiting (change_status next s)
    else change_status next s

-- `#requestStatus`
abbrev pub request_status : Bool → Session → Session
request_status retry s = emit (requests_status retry) s

-- `#broadcastStatus`
abbrev pub broadcast_status : SessionStatus → Session → Session
broadcast_status status s = elim s.term [ none ↦ s | some t ↦ emit (broadcasts t status) s ]

-- `#emitError`
abbrev pub emit_error : Bool → ErrorCode → Session → Session
emit_error is_broadcast code s =
    let told : Session = emit (reports code) (record s { last_error_code = some code }) in
    if is_broadcast then emit (sends_error code) told else told

abbrev leave_queue : Session → Session
leave_queue s = if same_status s.status queued then set_status idle s else s

-- `#join`
pub join : Session → Session
join s =
    if s.is_released || s.is_joined
    then s
    else emit starts_election
        (request_status false (emit attaches (leave_queue (record s { is_joined = true }))))

-- `start`
pub start : SessionSettings → Session → Session
start c s = if is_some c.max_tabs then emit starts_slot (set_status queued s) else join s

-- `handleBusReconnected`
pub handle_bus_reconnected : Session → Session
handle_bus_reconnected s =
    let gap : Session = record s { after_gap = true } in
    if s.is_released || not s.is_joined || is_some s.withdrawal
    then gap
    else if s.is_owner
    then broadcast_status s.status gap
    else request_status false gap

-- `retry`
abbrev retry_part : Option ℕ → Session → Session
retry_part (some n) s = emit (retries_supervisor n) s
retry_part none s = if same_status s.status failed then request_status true s else s

pub retry : Session → Session
retry s = if is_some s.withdrawal then s else retry_part s.supervisor s

-- `#stopBeingOwner`, up to its `await`, without the accepted writes.
abbrev stop_supervisor : Option ℕ → Option ℕ → Session → Session
stop_supervisor (some n) (some t) s =
    emit (stops_supervisor n) (record s { stopping = t ∷ s.stopping })
stop_supervisor _ _ s = s

abbrev pub stop_being_owner : Session → Session
stop_being_owner s =
    stop_supervisor s.supervisor s.term (record s { supervisor = none; term = none })

abbrev pub has_term : ℕ → List ℕ → Bool
has_term t [] = false
has_term t (u ∷ us) = u == t || has_term t us

abbrev pub drop_term : ℕ → List ℕ → List ℕ
drop_term t [] = []
drop_term t (u ∷ us) = let rest = drop_term t us in if u == t then us else u ∷ rest

-- `supervisor.stop()` has come to its end: `#queueGoodbye` and what follows.
pub supervisor_stopped : ℕ → Session → Session
supervisor_stopped t s =
    if has_term t s.stopping
    then emit (ends_own t) (
        emit stops_election (
          emit (says_goodbye t)
            (record s { stopping = drop_term t s.stopping; is_election_stopped = true })))
    else s

-- `#staysFailed`
abbrev pub stays_failed : SessionSettings → Session → Bool
stays_failed c s = same_status s.status failed && not c.auto_reconnect

-- The callback of the supervisor of a term.
abbrev pub on_status : ℕ → SessionStatus → Session → Session
on_status n status s =
    if is_value s.supervisor n then set_status status (broadcast_status status s) else s

pub supervisor_status : ℕ → SessionStatus → Session → Session
supervisor_status n status s = on_status n status s

-- `#startTerm`; `supervisor.start` reports its first status at once.
abbrev pub begin_term : ℕ → Session → Session
begin_term t s = record (emit (claims t) s) {
  term = some t;
  next_term = suc s.next_term;
  supervisor = some t;
}

abbrev pub start_term : SessionSettings → ℕ → Session → Session
start_term c t s = emit (takes_own t) (
    on_status t (if stays_failed c s then failed else connecting)
      (emit (starts_supervisor t (stays_failed c s)) (begin_term t s)))

-- `onAcquired`. The election asks for the port once the session has joined and until it is stopped.
pub acquire : SessionSettings → Session → Session
acquire c s =
    if s.is_owner || s.is_election_stopped || not s.is_joined
    then s
    else if s.is_released
    then record s { is_owner = true }
    else start_term c s.next_term (record s { is_owner = true })

-- `onLost`
pub lose : Session → Session
lose s = if s.is_owner then stop_being_owner (record s { is_owner = false }) else s

-- `onEnded` of the terms.
pub term_ended : SessionSettings → Bool → Session → Session
term_ended c was_current s =
    if was_current && not s.is_owner && not s.is_released && not (stays_failed c s)
    then set_status reconnecting s
    else s

-- `#takeAfterGap` and the data of the supervisor, or of a message.
pub receive : Bool → Session → Session
receive is_own s =
    let told : Session = emit (receives s.after_gap) (record s { after_gap = false }) in
    if is_own then emit sends_data told else told

pub report_error : Bool → ErrorCode → Session → Session
report_error is_broadcast code s = emit_error is_broadcast code s

-- `release`, up to its first `await`.
pub release : Session → Session
release s =
    if s.is_released
    then s
    else record (stop_being_owner (emit fails_writes (record s { is_released = true }))) {
      release_phase = awaits_stop s.term;
    }

abbrev is_stopping : Option ℕ → Session → Bool
is_stopping none s = false
is_stopping (some t) s = has_term t s.stopping

abbrev leave_bus : Session → Session
leave_bus s = if s.is_joined && not (is_some s.withdrawal) then emit detaches s else s

abbrev leave_slot : SessionSettings → Session → Session
leave_slot c s = if is_some c.max_tabs then emit stops_slot s else s

abbrev end_release : SessionSettings → Session → Session
end_release c s =
    record (set_status released
      (leave_slot c (leave_bus (emit disposes_terms (record s { has_delayed_answer = false }))))) {
        release_phase = has_released;
      }

-- What `release` awaits has come to its end, if it has.
abbrev release_from : SessionSettings → ReleasePhase → Session → Session
release_from c (awaits_stop t) s =
    if is_stopping t s
    then s
    else emit stops_election
        (record s { is_election_stopped = true; release_phase = awaits_election })
release_from c awaits_election s = if s.is_owner then s else end_release c s
release_from c _ s = s

pub continue_release : SessionSettings → Session → Session
continue_release c s = release_from c s.release_phase s
