-- ===== src/Client/PendingWrites.antt =====
-- src/client/pending-writes.ts: `PendingWrites`, the writes that one tab has issued and still waits on.
-- Request ids and terms are opaque values that the code compares with `===` alone: numbers here.
-- `#writes` is a table in insertion order. What the class does to the world (`host.dispatch`, the
-- settling of a promise) and what it answers is appended to `trace`, newest first; the code acts on
-- none of it. The readings of the host are an argument of each operation.
pub mod Trace
pub mod Steps
pub mod AtMostOnce
pub mod Effects
pub mod Moves
pub mod Answers
mod Tests
use serial_broker.Prelude.{
  ℕ, suc, Bool, true, false, not, ◌&&◌, ◌||◌, Option, none, some, List, [], ◌∷◌, is_value, is_some,
  if◌then◌else◌, length, ◌==◌, Table, lookup, insert, remove, values, keys,
}
use Prim.Native.String.{String}
use serial_broker.Core.Errors.{SerialBrokerError, new_error, is_not_connected}
use serial_broker.Core.Errors
use serial_broker.Client.Deadline.{Deadline, schedule_deadline, run_timer}

pub record PendingWrite : Type 0 where
  pub request_id : ℕ
  pub payload : List ℕ
  pub started_term : Option ℕ
  pub addressed_term : Option ℕ
  pub is_dispatched : Bool
  pub deadline : Deadline

-- `PendingWriteHost`: its fields, the readings of its clock and the answers of its callbacks.
pub record Host : Type 0 where
  pub config_name : String
  pub write_timeout_ms : ℕ
  pub now : ℕ
  pub monotonic_now : ℕ
  pub can_dispatch : Bool
  pub current_term : Option ℕ
  pub is_term_ended : ℕ → Bool

pub data Outcome : Type 0 where
  resolved : Outcome
  rejected : SerialBrokerError → Outcome

pub data TraceEvent : Type 0 where
  added : ℕ → TraceEvent
  -- with what `host.isTermEnded` answered at the time
  dispatched : (request : ℕ) → (term : ℕ) → (ended : ℕ → Bool) → TraceEvent
  approved : (request : ℕ) → (term : ℕ) → TraceEvent
  handed_back : (request : ℕ) → (term : ℕ) → TraceEvent
  settled : (request : ℕ) → Outcome → TraceEvent

pub record Tracker : Type 0 where
  pub writes : Table PendingWrite
  pub trace : List TraceEvent

abbrev pub empty : Tracker
empty = record { writes = []; trace = [] }

pub record PendingWritesDiagnostics : Type 0 where
  pub total : ℕ
  pub dispatched : ℕ
  pub started : ℕ

abbrev count_if : Bool → ℕ → ℕ
count_if true n = suc n
count_if false n = n

-- The loop of `diagnostics`.
count_writes : List PendingWrite → PendingWritesDiagnostics
count_writes [] = record { total = 0; dispatched = 0; started = 0 }
count_writes (p ∷ ps) =
    let rest = count_writes ps in
    record {
      total = suc rest.total;
      dispatched = count_if p.is_dispatched rest.dispatched;
      started = count_if (is_some p.started_term) rest.started;
    }

pub diagnostics : Tracker → PendingWritesDiagnostics
unfolding count_writes
diagnostics s = count_writes (values s.writes)

-- `pending.addressedTerm !== term && !isTermEnded(pending.addressedTerm)`, for one that is set.
abbrev pub is_held_elsewhere : Host → Option ℕ → ℕ → Bool
is_held_elsewhere h none term = false
is_held_elsewhere h (some addressed) term =
    not (addressed == term) && not (h.is_term_ended addressed)

-- The end of `#dispatch`, for a write not begun and the term that holds the port: the term to hand
-- it to, if it is handed on.
pub dispatch_target : Host → PendingWrite → Option ℕ
dispatch_target h p = elim p.started_term [
  | some t ↦ none
  | none ↦ if not h.can_dispatch then none else (elim h.current_term [
    | none ↦ none
    | some term ↦
        if p.is_dispatched && is_value p.addressed_term term
        then none
        else if is_held_elsewhere h p.addressed_term term
        then none
        else some term
  ])
]

-- `#dispatch` on an entry of the table: its new value stands in the place of the old one.
pub dispatch : Host → PendingWrite → Tracker → Tracker
dispatch h p s = elim (dispatch_target h p) [
  | none ↦ s
  | some term ↦ record {
    writes =
        insert p.request_id (record p { is_dispatched = true; addressed_term = some term })
          s.writes;
    trace = dispatched p.request_id term h.is_term_ended ∷ s.trace;
  }
]

pub settle : ℕ → Option SerialBrokerError → Tracker → Tracker
settle r error s = elim (lookup r s.writes) [
  | none ↦ s
  | some p ↦ record {
    writes = remove r s.writes;
    trace = settled r (elim error [ none ↦ resolved | some e ↦ rejected e ]) ∷ s.trace;
  }
]

abbrev pub new_write : Host → ℕ → List ℕ → PendingWrite
new_write h r payload = record {
  request_id = r;
  payload = payload;
  started_term = none;
  addressed_term = none;
  is_dispatched = false;
  deadline = schedule_deadline h.monotonic_now h.write_timeout_ms;
}

pub add : Host → ℕ → List ℕ → Tracker → Tracker
unfolding dispatch
add h r payload s =
    dispatch h (new_write h r payload)
      (record { writes = insert r (new_write h r payload) s.writes; trace = added r ∷ s.trace })

-- What the deadline of a write reports: the closure reads `startedTerm` when it runs.
abbrev pub timeout_error : Host → PendingWrite → SerialBrokerError
timeout_error h p =
    new_error Errors.ErrorCode.write_timeout
      "The write did not complete within the configured deadline" h.config_name
      (record {
        request_id = some p.request_id;
        byte_length = some (length p.payload);
        started = some (is_some p.started_term);
      })
      h.now

-- The timer of the write's deadline runs.
pub run_deadline : Host → ℕ → Tracker → Tracker
unfolding settle run_timer
run_deadline h r s = elim (lookup r s.writes) [
  | none ↦ s
  | some p ↦
      let (d, expired) = run_timer h.monotonic_now p.deadline in
      let s' : Tracker = record s { writes = insert r (record p { deadline = d }) s.writes } in
      if expired then settle r (some (timeout_error h p)) s' else s'
]

-- `pending.startedTerm ??= term`
abbrev pub or_started : Option ℕ → ℕ → Option ℕ
or_started none term = some term
or_started (some t) term = some t

pub approve : ℕ → ℕ → Tracker → Tracker × Bool
approve r term s = elim (lookup r s.writes) [
  | none ↦ (s, false)
  | some p ↦
      if is_value p.addressed_term term
      then (
        record {
          writes = insert r (record p { started_term = or_started p.started_term term }) s.writes;
          trace = approved r term ∷ s.trace;
        },
        true,
      )
      else (s, false)
]

-- `error?.code !== NOT_CONNECTED`, turned round.
abbrev pub is_handed_back : Option SerialBrokerError → Bool
is_handed_back none = false
is_handed_back (some e) = is_not_connected e.code

-- The write of a term that did not write it and will not.
abbrev pub take_back : PendingWrite → PendingWrite
take_back p = record p { started_term = none; is_dispatched = false }

pub handle_result : Host → ℕ → Option ℕ → Option SerialBrokerError → Tracker → Tracker
unfolding settle dispatch
handle_result h r none error s = s
handle_result h r (some term) error s = elim (lookup r s.writes) [
  | none ↦ s
  | some p ↦
      if not (is_value p.addressed_term term)
      then s
      else if not (is_handed_back error)
      then settle r error s
      else dispatch h (take_back p) (record {
        writes = insert r (take_back p) s.writes;
        trace = handed_back r term ∷ s.trace;
      })
]

abbrev pub owner_lost_error : Host → PendingWrite → SerialBrokerError
owner_lost_error h p =
    new_error Errors.ErrorCode.owner_lost_during_write
      "The tab that owned the port went away while this write was in progress" h.config_name
      (record {
        request_id = some p.request_id;
        byte_length = some (length p.payload);
        started = none;
      })
      h.now

-- `pending.startedTerm === term`
pub is_begun_in : ℕ → PendingWrite → Bool
is_begun_in term p = is_value p.started_term term

-- The first loop of `handleTermEnded`, over the snapshot of the values.
pub fail_started : Host → ℕ → List PendingWrite → Tracker → Tracker
unfolding settle is_begun_in
fail_started h term [] s = s
fail_started h term (p ∷ ps) s =
    fail_started h term ps
      (if is_begun_in term p then settle p.request_id (some (owner_lost_error h p)) s else s)

-- The loop of `dispatchWaiting`.
pub dispatch_each : Host → List PendingWrite → Tracker → Tracker
unfolding dispatch
dispatch_each h [] s = s
dispatch_each h (p ∷ ps) s = dispatch_each h ps (dispatch h p s)

pub dispatch_waiting : Host → Tracker → Tracker
unfolding dispatch_each
dispatch_waiting h s = dispatch_each h (values s.writes) s

pub handle_term_ended : Host → ℕ → Tracker → Tracker
unfolding fail_started dispatch_waiting
handle_term_ended h term s = dispatch_waiting h (fail_started h term (values s.writes) s)

-- `addressed === undefined || addressed === current || isTermEnded(addressed)`
abbrev pub may_resend : Host → Option ℕ → Bool
may_resend h none = true
may_resend h (some addressed) = is_value h.current_term addressed || h.is_term_ended addressed

-- One round of `resendUnstarted`.
resend : Host → PendingWrite → Tracker → Tracker
unfolding dispatch
resend h p s =
    if is_some p.started_term || not (may_resend h p.addressed_term)
    then s
    else dispatch h (record p { is_dispatched = false })
        (record s { writes = insert p.request_id (record p { is_dispatched = false }) s.writes })

resend_each : Host → List PendingWrite → Tracker → Tracker
unfolding resend
resend_each h [] s = s
resend_each h (p ∷ ps) s = resend_each h ps (resend h p s)

pub resend_unstarted : Host → Tracker → Tracker
unfolding resend_each
resend_unstarted h s = resend_each h (values s.writes) s

-- The loop of `failAll`, over the snapshot of the keys.
pub fail_each : SerialBrokerError → List ℕ → Tracker → Tracker
unfolding settle
fail_each e [] s = s
fail_each e (r ∷ rs) s = fail_each e rs (settle r (some e) s)

pub fail_all : SerialBrokerError → Tracker → Tracker
unfolding fail_each
fail_all e s = fail_each e (keys s.writes) s

-- A call of one of the methods, or a run of a deadline's timer.
pub data Call : Type 0 where
  adds : ℕ → List ℕ → Call
  approves : ℕ → ℕ → Call
  results : ℕ → Option ℕ → Option SerialBrokerError → Call
  ends_term : ℕ → Call
  resends : Call
  dispatches : Call
  settles : ℕ → Option SerialBrokerError → Call
  fails_all : SerialBrokerError → Call
  runs_deadline : ℕ → Call

pub step : Host → Call → Tracker → Tracker
step h (adds r payload) s = add h r payload s
step h (approves r term) s = (approve r term s).0
step h (results r term error) s = handle_result h r term error s
step h (ends_term term) s = handle_term_ended h term s
step h resends s = resend_unstarted h s
step h dispatches s = dispatch_waiting h s
step h (settles r error) s = settle r error s
step h (fails_all e) s = fail_all e s
step h (runs_deadline r) s = run_deadline h r s

pub run : List (Host × Call) → Tracker → Tracker
run [] s = s
run ((h, c) ∷ cs) s = run cs (step h c s)
