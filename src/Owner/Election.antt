-- ===== src/Owner/Election.antt =====
-- src/owner/election.ts: the class `OwnershipElection`, on its `HeldLock`. Inside the ownership lock it
-- takes the lock of a new term. `trace` is what it asked of the browser and told, newest first; the code
-- does not read it.
pub mod Fine
pub mod Inside
pub mod Histories
pub mod Ends
mod Tests
use serial_broker.Prelude.{Bool, true, false, List, [], ◌∷◌, if◌then◌else◌}
use serial_broker.Core.HeldLock.{
  Outcome, returned, aborted, refused, LockRequest, no_request, waits, holds, ends, settled,
  HeldLock, new_lock, starts_now, start_lock, grant_lock, settle_lock, fails_lock, react_lock,
  finish_lock, retry_lock, stop_lock,
}

pub data ElectionEvent : Type 0 where
  requests_lock requests_term acquires loses_port fails_request stops_election : ElectionEvent

-- What `hold` does inside the ownership lock.
pub data TermPhase : Type 0 where
  outside asks owns : TermPhase

pub record Election : Type 0 where
  pub lock : HeldLock
  pub phase : TermPhase
  pub is_owner : Bool
  pub trace : List ElectionEvent

abbrev pub new_election : Election
new_election = record { lock = new_lock; phase = outside; is_owner = false; trace = [] }

abbrev pub tell : ElectionEvent → Election → Election
tell e s = record s { trace = e ∷ s.trace }

abbrev pub tell_if : Bool → ElectionEvent → Election → Election
tell_if true e s = tell e s
tell_if false e s = s

-- `start`
abbrev pub start_election : Election → Election
start_election s = tell_if (starts_now s.lock) requests_lock (record s { lock = start_lock s.lock })

-- The ownership lock is granted.
abbrev enter : LockRequest → Election → Election
enter holds s = tell requests_term (record s { phase = asks })
enter _ s = s

abbrev grant_from : LockRequest → Election → Election
grant_from waits s = enter (grant_lock s.lock).request (record s { lock = grant_lock s.lock })
grant_from _ s = s

abbrev pub grant_ownership : Election → Election
grant_ownership s = grant_from s.lock.request s

-- The request is withdrawn by its signal, or refused.
abbrev reject_from : LockRequest → Bool → Election → Election
reject_from waits is_aborted s =
    if is_aborted
    then (if s.lock.is_stopped then record s { lock = settle_lock aborted s.lock } else s)
    else record s { lock = settle_lock refused s.lock }
reject_from _ is_aborted s = s

abbrev pub reject_ownership : Bool → Election → Election
reject_ownership is_aborted s = reject_from s.lock.request is_aborted s

-- `hold` has come to its end.
abbrev leave : Outcome → Election → Election
leave outcome s = record s { lock = settle_lock outcome s.lock; phase = outside }

-- The term's lock is granted; `onAcquired` may throw.
abbrev take_term_from : TermPhase → Bool → Election → Election
take_term_from asks throws s =
    if s.lock.is_stopped
    then leave returned s
    else if throws
    then leave refused (tell acquires (record s { is_owner = true }))
    else tell acquires (record s { is_owner = true; phase = owns })
take_term_from _ throws s = s

abbrev pub take_term : Bool → Election → Election
take_term throws s = take_term_from s.phase throws s

abbrev refuse_term_from : TermPhase → Election → Election
refuse_term_from asks s = leave refused s
refuse_term_from _ s = s

abbrev pub refuse_term : Election → Election
refuse_term s = refuse_term_from s.phase s

-- `released` has resolved, once the lock is stopped.
abbrev let_go_from : TermPhase → Election → Election
let_go_from owns s = if s.lock.is_stopped then leave returned s else s
let_go_from _ s = s

abbrev pub let_go : Election → Election
let_go s = let_go_from s.phase s

-- The reactions to the end of the request.
abbrev react_from : LockRequest → Election → Election
react_from (settled outcome) s =
    tell_if (fails_lock outcome s.lock) fails_request
      (record s { lock = react_lock outcome s.lock })
react_from _ s = s

abbrev pub react : Election → Election
react s = react_from s.lock.request s

abbrev finish_from : LockRequest → Election → Election
finish_from ends s =
    tell_if s.is_owner loses_port (record s { lock = finish_lock s.lock; is_owner = false })
finish_from _ s = s

abbrev pub finish_request : Election → Election
finish_request s = finish_from s.lock.request s

-- The timer of a retry, which fires once the reactions have run.
abbrev retry_from : LockRequest → Bool → Election → Election
retry_from no_request true s =
    tell_if (starts_now s.lock) requests_lock (record s { lock = retry_lock s.lock })
retry_from _ _ s = s

abbrev pub retry_election : Election → Election
retry_election s = retry_from s.lock.request s.lock.has_retry s

-- `stop`, up to its `await`.
abbrev pub stop_election : Election → Election
stop_election s = tell stops_election (record s { lock = stop_lock s.lock })

-- What happens to an election once it was started, which the session does once.
pub data ElectionStep : Type 0 where
  grants_ownership refuses_term lets_go reacts finishes retries stops : ElectionStep
  rejects grants_term : Bool → ElectionStep

unfoldable pub step : ElectionStep → Election → Election
step grants_ownership s = grant_ownership s
step refuses_term s = refuse_term s
step lets_go s = let_go s
step reacts s = react s
step finishes s = finish_request s
step retries s = retry_election s
step stops s = stop_election s
step (rejects is_aborted) s = reject_ownership is_aborted s
step (grants_term throws) s = take_term throws s

unfoldable pub run : List ElectionStep → Election → Election
unfolding step
run [] s = s
run (e ∷ es) s = run es (step e s)
