-- ===== src/Client/Session/Kept.antt =====
-- The operations of a session (src/client/configuration-session.ts) that leave its term alone.
use serial_broker.Prelude.{
  ℕ, Bool, true, false, not, ◌&&◌, ◌||◌, Option, none, some, is_some, is_value, ◌≡◌, by_if,
  by_option, if◌then◌else◌,
}
use serial_broker.Owner.PortMatcher.{ResolvedDevice}
use serial_broker.Client.Session.{
  set_status, broadcast_status, join, start, handle_bus_reconnected, retry_part, retry, has_term,
  supervisor_stopped, supervisor_status, stays_failed, term_ended, receive, report_error,
  is_stopping, leave_slot, end_release, release_from, continue_release,
}
use serial_broker.Client.Session.Inbox.{
  resolves, resolve_device, apply_status, follow_choice, apply_status_request, answer_late,
}
use serial_broker.Client.Session.State.{
  SessionStatus, idle, queued, opened, failed, released, same_status, SessionSettings, Session,
  reconnecting, ReleasePhase, not_releasing, awaits_stop, awaits_election, has_released,
  StatusMessage,
}
use serial_broker.Core.Errors.{ErrorCode}
use serial_broker.Client.Session.{on_status}
use serial_broker.Client.Session.Inbox.{withdraw, note_device, same_max_tabs}

abbrev pub IsKept : Session → Session → Type 0
IsKept o s = (s.term ≡ o.term) × (s.next_term ≡ o.next_term)

set_status-IsKept :
    (o : Session) (x : SessionStatus) (s : Session) → IsKept o s → IsKept o (set_status x s)
set_status-IsKept o x s v =
    by_if (IsKept o) (same_status s.status x || (s.is_released && not (same_status x released))) _ _
      (λ kept. v)
      (λ moves. by_if (IsKept o) (same_status x opened) _ _ (λ open_now. v) (λ other. v))

broadcast_status-IsKept :
    (o : Session) (x : SessionStatus) (s : Session) → IsKept o s → IsKept o (broadcast_status x s)
broadcast_status-IsKept o x s v = by_option (IsKept o) s.term _ _ (λ quiet. v) (λ t e. v)

resolve_device-IsKept :
    (o : Session) (d : ResolvedDevice) (s : Session) → IsKept o s → IsKept o (resolve_device d s)
resolve_device-IsKept o d s v = by_if (IsKept o) (resolves s.device d) _ _ (λ new. v) (λ same. v)

pub join-IsKept : (o : Session) (s : Session) → IsKept o s → IsKept o (join s)
unfolding join
join-IsKept o s v =
    by_if (IsKept o) (s.is_released || s.is_joined) _ _ (λ done. v)
      (λ first.
        by_if (IsKept o) (same_status s.status queued) _ _
          (λ waits. set_status-IsKept o idle (record s { is_joined = true }) v) (λ other. v))

pub start-IsKept :
    (o : Session) (c : SessionSettings) (s : Session) → IsKept o s → IsKept o (start c s)
unfolding start
start-IsKept o c s v =
    by_if (IsKept o) (is_some c.max_tabs) _ _ (λ limited. set_status-IsKept o queued s v)
      (λ free. join-IsKept o s v)

pub handle_bus_reconnected-IsKept :
    (o : Session) (s : Session) → IsKept o s → IsKept o (handle_bus_reconnected s)
unfolding handle_bus_reconnected
handle_bus_reconnected-IsKept o s v =
    by_if (IsKept o) (s.is_released || not s.is_joined || is_some s.withdrawal) _ _ (λ off. v)
      (λ on.
        by_if (IsKept o) s.is_owner _ _
          (λ own. broadcast_status-IsKept o s.status (record s { after_gap = true }) v)
          (λ other. v))

retry_part-IsKept :
    (o : Session) (n : Option ℕ) (s : Session) → IsKept o s → IsKept o (retry_part n s)
retry_part-IsKept o (some n) s v = v
retry_part-IsKept o none s v =
    by_if (IsKept o) (same_status s.status failed) _ _ (λ gave_up. v) (λ other. v)

pub retry-IsKept : (o : Session) (s : Session) → IsKept o s → IsKept o (retry s)
unfolding retry
retry-IsKept o s v =
    by_if (IsKept o) (is_some s.withdrawal) _ _ (λ gone. v)
      (λ stays. retry_part-IsKept o s.supervisor s v)

pub on_status-IsKept :
    (o : Session) (n : ℕ) (x : SessionStatus) (s : Session)
    → IsKept o s
    → IsKept o (on_status n x s)
on_status-IsKept o n x s v =
    by_if (IsKept o) (is_value s.supervisor n) _ _
      (λ own. set_status-IsKept o x _ (broadcast_status-IsKept o x s v)) (λ old. v)

pub supervisor_status-IsKept :
    (o : Session) (n : ℕ) (x : SessionStatus) (s : Session)
    → IsKept o s
    → IsKept o (supervisor_status n x s)
unfolding supervisor_status
supervisor_status-IsKept o n x s v = on_status-IsKept o n x s v

pub supervisor_stopped-IsKept :
    (o : Session) (t : ℕ) (s : Session) → IsKept o s → IsKept o (supervisor_stopped t s)
unfolding supervisor_stopped
supervisor_stopped-IsKept o t s v =
    by_if (IsKept o) (has_term t s.stopping) _ _ (λ here. v) (λ other. v)

pub term_ended-IsKept :
    (o : Session) (c : SessionSettings) (b : Bool) (s : Session)
    → IsKept o s
    → IsKept o (term_ended c b s)
unfolding term_ended
term_ended-IsKept o c b s v =
    by_if (IsKept o) (b && not s.is_owner && not s.is_released && not (stays_failed c s)) _ _
      (λ lost. set_status-IsKept o reconnecting s v) (λ other. v)

pub receive-IsKept : (o : Session) (b : Bool) (s : Session) → IsKept o s → IsKept o (receive b s)
unfolding receive
receive-IsKept o b s v = by_if (IsKept o) b _ _ (λ own. v) (λ other. v)

pub report_error-IsKept :
    (o : Session) (b : Bool) (code : ErrorCode) (s : Session)
    → IsKept o s
    → IsKept o (report_error b code s)
unfolding report_error
report_error-IsKept o b code s v = by_if (IsKept o) b _ _ (λ sent. v) (λ local. v)

leave_slot-IsKept :
    (o : Session) (c : SessionSettings) (s : Session) → IsKept o s → IsKept o (leave_slot c s)
leave_slot-IsKept o c s v = by_if (IsKept o) (is_some c.max_tabs) _ _ (λ on. v) (λ off. v)

end_release-IsKept :
    (o : Session) (c : SessionSettings) (s : Session) → IsKept o s → IsKept o (end_release c s)
end_release-IsKept o c s v = set_status-IsKept o released _ (
    leave_slot-IsKept o c _
      (by_if (IsKept o) (s.is_joined && not (is_some s.withdrawal)) _ _ (λ on. v) (λ off. v)))

release_from-IsKept :
    (o : Session) (c : SessionSettings) (p : ReleasePhase) (s : Session)
    → IsKept o s
    → IsKept o (release_from c p s)
release_from-IsKept o c not_releasing s v = v
release_from-IsKept o c has_released s v = v
release_from-IsKept o c awaits_election s v =
    by_if (IsKept o) s.is_owner _ _ (λ own. v) (λ other. end_release-IsKept o c s v)
release_from-IsKept o c (awaits_stop t) s v =
    by_if (IsKept o) (is_stopping t s) _ _ (λ waits. v) (λ ended. v)

pub continue_release-IsKept :
    (o : Session) (c : SessionSettings) (s : Session) → IsKept o s → IsKept o (continue_release c s)
unfolding continue_release
continue_release-IsKept o c s v = release_from-IsKept o c s.release_phase s v

note_device-IsKept :
    (o : Session) (d : Option ResolvedDevice) (s : Session)
    → IsKept o s
    → IsKept o (note_device d s)
note_device-IsKept o none s v = v
note_device-IsKept o (some d) s v = resolve_device-IsKept o d s v

withdraw-IsKept :
    (o : Session) (c : SessionSettings) (m : Option ℕ) (s : Session)
    → IsKept o s
    → IsKept o (withdraw c m s)
withdraw-IsKept o c m s v = set_status-IsKept o failed _ (leave_slot-IsKept o c _ v)

pub apply_status-IsKept :
    (o : Session) (c : SessionSettings) (m : StatusMessage) (s : Session)
    → IsKept o s
    → IsKept o (apply_status c m s)
unfolding apply_status
apply_status-IsKept o c m s v =
    by_if (IsKept o) (s.is_released || is_some s.withdrawal || s.is_owner) _ _ (λ off. v)
      (λ on.
        by_if (IsKept o) (not (same_max_tabs m.max_tabs c.max_tabs)) _ _
          (λ conflict. withdraw-IsKept o c m.max_tabs s v)
          (λ agreed. set_status-IsKept o m.status _ (
            by_if (IsKept o) (same_status m.status opened) _ _
              (λ open_now. note_device-IsKept o m.device s v)
              (λ other. note_device-IsKept o m.device s v))))

follow_choice-IsKept :
    (o : Session) (n : Option ℕ) (d : Option ResolvedDevice) (s : Session)
    → IsKept o s
    → IsKept o (follow_choice n d s)
follow_choice-IsKept o none d s v = v
follow_choice-IsKept o (some n) none s v = v
follow_choice-IsKept o (some n) (some d) s v =
    by_if (IsKept o) (resolves s.device d) _ _ (λ new. resolve_device-IsKept o d s v) (λ same. v)

pub apply_status_request-IsKept :
    (o : Session) (is_retry : Bool) (d : Option ResolvedDevice) (b : Bool) (s : Session)
    → IsKept o s
    → IsKept o (apply_status_request is_retry d b s)
unfolding apply_status_request
apply_status_request-IsKept o is_retry d b s v =
    let asked : Session = if is_retry then follow_choice s.supervisor d s else s in
    let w : IsKept o asked =
      by_if (IsKept o) is_retry _ _ (λ retries. follow_choice-IsKept o s.supervisor d s v)
        (λ asks. v) in
    by_if (IsKept o) (not asked.is_owner) _ _ (λ other. w)
      (λ own.
        by_if (IsKept o) b _ _ (λ now. broadcast_status-IsKept o asked.status asked w) (λ later. w))

pub answer_late-IsKept : (o : Session) (s : Session) → IsKept o s → IsKept o (answer_late s)
unfolding answer_late
answer_late-IsKept o s v =
    by_if (IsKept o) (not s.has_delayed_answer) _ _ (λ idle_now. v)
      (λ due.
        by_if (IsKept o) (s.is_released || not s.is_owner) _ _ (λ away. v)
          (λ own. broadcast_status-IsKept o s.status (record s { has_delayed_answer = false }) v))
