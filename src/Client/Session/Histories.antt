-- ===== src/Client/Session/Histories.antt =====
-- What happens to a session (src/client/configuration-session.ts), one event after another.
use serial_broker.Prelude.{ℕ, Bool, Option, List, [], ◌∷◌}
use serial_broker.Core.Errors.{ErrorCode}
use serial_broker.Owner.PortMatcher.{DeviceFilter, ResolvedDevice}
use serial_broker.Client.Session.{
  start, join, handle_bus_reconnected, retry, supervisor_stopped, supervisor_status, acquire, lose,
  term_ended, receive, report_error, release, continue_release,
}
use serial_broker.Client.Session.Inbox.{apply_status, apply_status_request, answer_late}
use serial_broker.Client.Session.State.{
  SessionStatus, SessionSettings, Session, new_session, StatusMessage,
}
use serial_broker.Client.Session.Order.{IsSafe, Holds, new_session-Holds}
use serial_broker.Client.Session.Steps.{
  start-Holds, join-Holds, handle_bus_reconnected-Holds, retry-Holds, supervisor_status-Holds,
  lose-Holds, term_ended-Holds, receive-Holds, report_error-Holds, release-Holds,
  apply_status_request-Holds, answer_late-Holds,
}
use serial_broker.Client.Session.Ends.{
  supervisor_stopped-Holds, acquire-Holds, continue_release-Holds, apply_status-Holds,
}

-- What the application, the place, the election, the terms, a supervisor, the bus and the clock do.
pub data Happening : Type 0 where
  starts joins reconnects retries acquires loses releases goes_on answer_due : Happening
  has_stopped : ℕ → Happening
  has_status : ℕ → SessionStatus → Happening
  has_ended has_received : Bool → Happening
  has_failed : Bool → ErrorCode → Happening
  hears_status : StatusMessage → Happening
  hears_request : Bool → Option ResolvedDevice → Bool → Happening

unfoldable pub step : SessionSettings → Happening → Session → Session
step c starts s = start c s
step c joins s = join s
step c reconnects s = handle_bus_reconnected s
step c retries s = retry s
step c acquires s = acquire c s
step c loses s = lose s
step c releases s = release s
step c goes_on s = continue_release c s
step c answer_due s = answer_late s
step c (has_stopped t) s = supervisor_stopped t s
step c (has_status n x) s = supervisor_status n x s
step c (has_ended b) s = term_ended c b s
step c (has_received b) s = receive b s
step c (has_failed b code) s = report_error b code s
step c (hears_status m) s = apply_status c m s
step c (hears_request is_retry d b) s = apply_status_request is_retry d b s

unfoldable pub run : SessionSettings → List Happening → Session → Session
unfolding step
run c [] s = s
run c (h ∷ hs) s = run c hs (step c h s)

pub step-Holds : (c : SessionSettings) (h : Happening) (s : Session) → Holds s → Holds (step c h s)
unfolding step
step-Holds c starts s v = start-Holds c s v
step-Holds c joins s v = join-Holds s v
step-Holds c reconnects s v = handle_bus_reconnected-Holds s v
step-Holds c retries s v = retry-Holds s v
step-Holds c acquires s v = acquire-Holds c s v
step-Holds c loses s v = lose-Holds s v
step-Holds c releases s v = release-Holds s v
step-Holds c goes_on s v = continue_release-Holds c s v
step-Holds c answer_due s v = answer_late-Holds s v
step-Holds c (has_stopped t) s v = supervisor_stopped-Holds t s v
step-Holds c (has_status n x) s v = supervisor_status-Holds n x s v
step-Holds c (has_ended b) s v = term_ended-Holds c b s v
step-Holds c (has_received b) s v = receive-Holds b s v
step-Holds c (has_failed b code) s v = report_error-Holds b code s v
step-Holds c (hears_status m) s v = apply_status-Holds c m s v
step-Holds c (hears_request is_retry d b) s v = apply_status_request-Holds is_retry d b s v

pub run-Holds :
    (c : SessionSettings) (hs : List Happening) (s : Session) → Holds s → Holds (run c hs s)
unfolding run
run-Holds c [] s v = v
run-Holds c (h ∷ hs) s v = run-Holds c hs _ (step-Holds c h s v)

-- In every history of a session, newest first: a term is claimed once, and only when no other one is
-- current; a supervisor is started, a status said and a supervisor told to stop only in the current
-- term; goodbye is said at most once to a term, which was claimed and is no longer current; and every
-- change of the status starts at the status told last, and changes it.
pub run-new_session-IsSafe :
    (c : SessionSettings) (hs : List Happening) (device : DeviceFilter)
    → IsSafe (run c hs (new_session device)).trace
run-new_session-IsSafe c hs device =
    (run-Holds c hs (new_session device) (new_session-Holds device)).1
