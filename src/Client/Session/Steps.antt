-- ===== src/Client/Session/Steps.antt =====
-- The operations of a session (src/client/configuration-session.ts) against the invariant.
use serial_broker.Prelude.{
  ℕ, Bool, true, false, not, ◌&&◌, ◌||◌, Option, none, some, is_some, refl, by_if,
}
use serial_broker.Core.Errors.{ErrorCode}
use serial_broker.Owner.PortMatcher.{ResolvedDevice}
use serial_broker.Client.Session.{
  emit, leave_queue, join, start, handle_bus_reconnected, retry_part, retry, stays_failed,
  supervisor_status, lose, term_ended, receive, report_error, release,
}
use serial_broker.Client.Session.Inbox.{
  resolves, answer_status_request, follow_choice, apply_status_request, answer_late,
}
use serial_broker.Client.Session.State.{
  SessionStatus, idle, queued, reconnecting, failed, same_status, SessionSettings, Session,
  fails_writes,
}
use serial_broker.Client.Session.Order.{Holds}
use serial_broker.Client.Session.Keeps.{
  set_status-Holds, broadcast_status-Holds, emit_error-Holds, resolve_device-Holds, on_status-Holds,
  stop_supervisor-Holds,
}

leave_queue-Holds : (s : Session) → Holds s → Holds (leave_queue s)
leave_queue-Holds s v =
    by_if Holds (same_status s.status queued) _ _ (λ waits. set_status-Holds idle s v) (λ other. v)

pub join-Holds : (s : Session) → Holds s → Holds (join s)
unfolding join
join-Holds s v =
    by_if Holds (s.is_released || s.is_joined) _ _ (λ done. v)
      (λ first.
        let left = leave_queue-Holds (record s { is_joined = true }) v in
        (left.0, (tt, (tt, (tt, left.1)))))

pub start-Holds : (c : SessionSettings) (s : Session) → Holds s → Holds (start c s)
unfolding start
start-Holds c s v =
    by_if Holds (is_some c.max_tabs) _ _
      (λ limited. let waits = set_status-Holds queued s v in (waits.0, (tt, waits.1)))
      (λ free. join-Holds s v)

pub handle_bus_reconnected-Holds : (s : Session) → Holds s → Holds (handle_bus_reconnected s)
unfolding handle_bus_reconnected
handle_bus_reconnected-Holds s v =
    by_if Holds (s.is_released || not s.is_joined || is_some s.withdrawal) _ _ (λ off. v)
      (λ on.
        by_if Holds s.is_owner _ _
          (λ own. broadcast_status-Holds s.status (record s { after_gap = true }) v)
          (λ other. (v.0, (tt, v.1))))

retry_part-Holds : (o : Option ℕ) (s : Session) → Holds s → Holds (retry_part o s)
retry_part-Holds (some n) s v = (v.0, (tt, v.1))
retry_part-Holds none s v =
    by_if Holds (same_status s.status failed) _ _ (λ gave_up. (v.0, (tt, v.1))) (λ other. v)

pub retry-Holds : (s : Session) → Holds s → Holds (retry s)
unfolding retry
retry-Holds s v =
    by_if Holds (is_some s.withdrawal) _ _ (λ gone. v) (λ stays. retry_part-Holds s.supervisor s v)

pub supervisor_status-Holds :
    (n : ℕ) (x : SessionStatus) (s : Session) → Holds s → Holds (supervisor_status n x s)
unfolding supervisor_status
supervisor_status-Holds n x s v = on_status-Holds n x s v

pub lose-Holds : (s : Session) → Holds s → Holds (lose s)
unfolding lose
lose-Holds s v =
    by_if Holds s.is_owner _ _
      (λ own. stop_supervisor-Holds s.supervisor s.term false s.is_released s v refl refl)
      (λ other. v)

pub release-Holds : (s : Session) → Holds s → Holds (release s)
unfolding release
release-Holds s v =
    by_if Holds s.is_released _ _ (λ again. v)
      (λ first.
        stop_supervisor-Holds s.supervisor s.term s.is_owner true (emit fails_writes s)
          (v.0, (tt, v.1)) refl refl)

pub term_ended-Holds :
    (c : SessionSettings) (b : Bool) (s : Session) → Holds s → Holds (term_ended c b s)
unfolding term_ended
term_ended-Holds c b s v =
    by_if Holds (b && not s.is_owner && not s.is_released && not (stays_failed c s)) _ _
      (λ lost. set_status-Holds reconnecting s v) (λ other. v)

pub receive-Holds : (b : Bool) (s : Session) → Holds s → Holds (receive b s)
unfolding receive
receive-Holds b s v = by_if Holds b _ _ (λ own. (v.0, (tt, (tt, v.1)))) (λ other. (v.0, (tt, v.1)))

pub report_error-Holds :
    (b : Bool) (code : ErrorCode) (s : Session) → Holds s → Holds (report_error b code s)
unfolding report_error
report_error-Holds b code s v = emit_error-Holds b code s v

pub answer_status_request-Holds :
    (b : Bool) (s : Session) → Holds s → Holds (answer_status_request b s)
answer_status_request-Holds b s v =
    by_if Holds (not s.is_owner) _ _ (λ other. v)
      (λ own. by_if Holds b _ _ (λ now. broadcast_status-Holds s.status s v) (λ later. v))

follow_choice-Holds :
    (o : Option ℕ) (d : Option ResolvedDevice) (s : Session) → Holds s → Holds (follow_choice o d s)
follow_choice-Holds none d s v = v
follow_choice-Holds (some n) none s v = (v.0, (tt, v.1))
follow_choice-Holds (some n) (some d) s v =
    by_if Holds (resolves s.device d) _ _
      (λ new. let found = resolve_device-Holds d s v in (found.0, (tt, found.1)))
      (λ same. (v.0, (tt, v.1)))

pub apply_status_request-Holds :
    (is_retry : Bool) (d : Option ResolvedDevice) (b : Bool) (s : Session)
    → Holds s
    → Holds (apply_status_request is_retry d b s)
unfolding apply_status_request
apply_status_request-Holds is_retry d b s v =
    answer_status_request-Holds b _
      (by_if Holds is_retry _ _ (λ retries. follow_choice-Holds s.supervisor d s v) (λ asks. v))

pub answer_late-Holds : (s : Session) → Holds s → Holds (answer_late s)
unfolding answer_late
answer_late-Holds s v =
    by_if Holds (not s.has_delayed_answer) _ _ (λ idle_now. v)
      (λ due.
        by_if Holds (s.is_released || not s.is_owner) _ _ (λ away. v)
          (λ own. broadcast_status-Holds s.status (record s { has_delayed_answer = false }) v))
