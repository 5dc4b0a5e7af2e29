-- ===== src/Client/PendingWrites/Tests.antt =====
-- One write of a tab: issued, handed to the holder of the port, approved; and what follows.
use serial_broker.Prelude.{
  ℕ, true, false, none, some, List, [], ◌∷◌, ◌≡◌, ◌≢◌, refl, ◌==◌, if◌then◌else◌, lookup, insert,
  remove, is_some, arith,
}
use mathlib.Core.Option
use mathlib.Core.List.{Memᴰ}
use serial_broker.Core.Errors
use serial_broker.Core.Errors.{SerialBrokerError, new_error, no_context}
use serial_broker.Client.Deadline.{run_timer, schedule_deadline}
use serial_broker.Client.Deadline.Laws.{run_timer_late}
use serial_broker.Client.PendingWrites.{
  PendingWrite, Host, added, dispatched, approved, settled, resolved, rejected, dispatch_target,
  dispatch, settle, add, run_deadline, approve, handle_result, handle_term_ended, fail_all,
  timeout_error, owner_lost_error, diagnostics, Call, adds, approves, settles, step, run, empty,
}
use serial_broker.Client.PendingWrites.Trace.{request_of, open_grant, Inv}
use serial_broker.Client.PendingWrites.Steps.{run-empty-Inv}
use serial_broker.Client.PendingWrites.AtMostOnce.{
  RespectsGrant, run-RespectsGrant, run-settled_last,
}
use serial_broker.Client.PendingWrites.Answers.{run_deadline_expired, handle_term_ended-rejects}

-- The port is open in term 1, at the time 0.
abbrev in_term_1 : Host
in_term_1 = record {
  config_name = "scale";
  write_timeout_ms = 5000;
  now = 100;
  monotonic_now = 0;
  can_dispatch = true;
  current_term = some 1;
  is_term_ended = λ t. false;
}

-- Term 1 has ended, and term 2 holds the port.
abbrev in_term_2 : Host
in_term_2 = record in_term_1 {
  current_term = some 2;
  monotonic_now = 5000;
  is_term_ended = λ t. t == 1;
}

abbrev failure : SerialBrokerError
failure = new_error Errors.ErrorCode.configuration_released "released" "scale" no_context 100

-- Write 7 is issued and approved, write 8 is issued.
abbrev begun : List (Host × Call)
begun =
    (in_term_1, adds 7 (65 ∷ []))
    ∷ (in_term_1, approves 7 1)
    ∷ (in_term_1, adds 8 (66 ∷ 67 ∷ []))
    ∷ []

-- Write 7 as it is then.
abbrev write_7 : PendingWrite
write_7 = record {
  request_id = 7;
  payload = 65 ∷ [];
  started_term = some 1;
  addressed_term = some 1;
  is_dispatched = true;
  deadline = record { due_at = 5000; handle = some (record { delay_ms = 5000; may_yield = true }) };
}

all_calls : Unit {0}
unfolding run step add approve handle_result handle_term_ended run_deadline settle dispatch
    dispatch_target lookup insert remove run_timer schedule_deadline fail_all diagnostics
all_calls = tt

trace_of_begun :
    (run begun empty).trace
    ≡ dispatched 8 1 (λ t. false)
      ∷ added 8
      ∷ approved 7 1
      ∷ dispatched 7 1 (λ t. false)
      ∷ added 7
      ∷ []
unfolding all_calls
trace_of_begun = refl

found_7 : lookup 7 (run begun empty).writes ≡ some write_7
unfolding all_calls
found_7 = refl

-- The owner's term ends: 7 is lost, 8 goes to term 2.
term_1_ends :
    let s = handle_term_ended in_term_2 1 (run begun empty) in
    (lookup 7 s.writes ≡ none)
    × (Option.map (λ p. p.addressed_term) (lookup 8 s.writes) ≡ some (some 2))
unfolding all_calls
term_1_ends = (refl, refl)

run_timer_late_example :
    let first = run_timer 60000 (schedule_deadline 0 5000) in
    (first.1 ≡ false)
    × (first.0.handle ≡ some (record { delay_ms = 0; may_yield = false }))
    × ((run_timer 60001 first.0).1 ≡ true)
    × ((run_timer 60001 first.0).0.handle ≡ none)
run_timer_late_example = run_timer_late 0 5000 60000 60001 (omega arith)

run-empty-Inv_example : Inv (run begun empty)
run-empty-Inv_example = run-empty-Inv begun

run-RespectsGrant_example : RespectsGrant 7 1 (dispatched 8 1 (λ t. false))
unfolding all_calls
run-RespectsGrant_example =
    run-RespectsGrant begun 7 1 [] (dispatched 8 1 (λ t. false)) (added 8 ∷ [])
      (dispatched 7 1 (λ t. false) ∷ added 7 ∷ []) refl (omega arith, tt)

run-settled_last_example : request_of (dispatched 8 1 (λ t. false)) ≢ 7
unfolding all_calls
run-settled_last_example =
    run-settled_last
      ((in_term_1, adds 7 []) ∷ (in_term_1, settles 7 none) ∷ (in_term_1, adds 8 []) ∷ []) 7
      resolved [] (dispatched 8 1 (λ t. false)) (added 8 ∷ [])
      (dispatched 7 1 (λ t. false) ∷ added 7 ∷ []) refl (omega arith, tt) tt

-- Write 9 is issued and approved in term 2, before the tab hears that term 1 has ended.
abbrev begun_in_both : List (Host × Call)
begun_in_both =
    (in_term_1, adds 8 (66 ∷ 67 ∷ []))
    ∷ (in_term_2, adds 9 (68 ∷ []))
    ∷ (in_term_2, approves 9 2)
    ∷ []

abbrev write_8 : PendingWrite
write_8 = record {
  request_id = 8;
  payload = 66 ∷ 67 ∷ [];
  started_term = none;
  addressed_term = some 1;
  is_dispatched = true;
  deadline = record { due_at = 5000; handle = some (record { delay_ms = 5000; may_yield = true }) };
}

abbrev write_9 : PendingWrite
write_9 = record {
  request_id = 9;
  payload = 68 ∷ [];
  started_term = some 2;
  addressed_term = some 2;
  is_dispatched = true;
  deadline = record {
    due_at = 10000;
    handle = some (record { delay_ms = 5000; may_yield = true });
  };
}

handle_term_ended-rejects_example :
    Memᴰ
      (settled 7 (rejected (owner_lost_error in_term_2 write_7)))
      (handle_term_ended in_term_2 1 (run begun empty)).trace
unfolding all_calls
handle_term_ended-rejects_example =
    handle_term_ended-rejects in_term_2 1 (run begun empty) 7 write_7 (run-empty-Inv begun) refl
      refl

run_deadline_expired_example :
    ((run_deadline in_term_2 7 (run begun empty)).trace
      ≡ settled 7 (rejected (timeout_error in_term_2 write_7)) ∷ (run begun empty).trace)
    × ((timeout_error in_term_2 write_7).context.started
        ≡ some (is_some (open_grant 7 (run begun empty).trace)))
    × ((j : ℕ)
        → lookup j (run_deadline in_term_2 7 (run begun empty)).writes
          ≡ (if 7 == j then none else lookup j (run begun empty).writes))
unfolding all_calls
run_deadline_expired_example =
    run_deadline_expired in_term_2 7 (run begun empty) write_7 (run-empty-Inv begun) refl refl
