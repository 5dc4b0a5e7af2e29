-- ===== src/Owner/Election/Histories.antt =====
-- Histories of an election (src/owner/election.ts) from its start.
use serial_broker.Prelude.{Bool, true, false, List, [], ◌∷◌, refl, inl, inr}
use serial_broker.Core.HeldLock.{
  returned, aborted, refused, LockRequest, no_request, waits, holds, ends, settled,
}
use serial_broker.Owner.Election.{
  ElectionEvent, TermPhase, outside, asks, owns, Election, new_election, start_election,
  retry_election, stop_election, ElectionStep, grants_ownership, rejects, grants_term, refuses_term,
  lets_go, reacts, finishes, retries, stops, step, run,
}
use serial_broker.Owner.Election.Fine.{
  IsFine, made, FineElection, FineOf, grant-FineOf, reject-FineOf,
}
use serial_broker.Owner.Election.Inside.{
  take_term-FineOf, refuse_term-FineOf, let_go-FineOf, react-FineOf, finish-FineOf,
}

retry-FineOf :
    (q : LockRequest) (p : TermPhase) (o s r : Bool) (es : List ElectionEvent)
    → FineElection q p o s r es
    → FineOf (retry_election (made q p o s r es))
retry-FineOf no_request p o s false es v = v
retry-FineOf no_request asks o s true es v = absurd v.fine
retry-FineOf no_request owns o s true es v = absurd v.fine
retry-FineOf no_request outside o false true es v = record {
  fine = (v.fine.0, refl);
  owner_told = v.owner_told;
  stop_told = v.stop_told;
  ordered = (v.stop_told, v.ordered);
}
retry-FineOf no_request outside o true true es v = elim v.fine.1 [
  | inl runs ↦ cc (runs.0)
  | inr over ↦ cc (over.1)
]
retry-FineOf waits p o s r es v = v
retry-FineOf holds p o s r es v = v
retry-FineOf ends p o s r es v = v
retry-FineOf (settled e) p o s r es v = v

-- A stop leaves the request as it is, and drops the retry.
stop-IsFine :
    (q : LockRequest) (p : TermPhase) (o r : Bool) → IsFine q p o false r → IsFine q p o true false
stop-IsFine no_request outside o r h = (h.0, inr (refl, refl))
stop-IsFine waits outside o r h = (h.0, refl)
stop-IsFine holds asks o r h = (h.0, refl)
stop-IsFine holds owns o r h = (h.0, refl)
stop-IsFine (settled refused) outside o r h = refl
stop-IsFine (settled returned) outside o r h = (refl, refl)
stop-IsFine (settled aborted) outside o r h = (refl, refl)
stop-IsFine ends outside o r h = inr (refl, refl)
stop-IsFine holds outside o r h = h
stop-IsFine no_request asks o r h = h
stop-IsFine no_request owns o r h = h
stop-IsFine waits asks o r h = h
stop-IsFine waits owns o r h = h
stop-IsFine ends asks o r h = h
stop-IsFine ends owns o r h = h
stop-IsFine (settled returned) asks o r h = h
stop-IsFine (settled returned) owns o r h = h
stop-IsFine (settled aborted) asks o r h = h
stop-IsFine (settled aborted) owns o r h = h
stop-IsFine (settled refused) asks o r h = h
stop-IsFine (settled refused) owns o r h = h

stop-FineOf :
    (q : LockRequest) (p : TermPhase) (o s r : Bool) (es : List ElectionEvent)
    → FineElection q p o s r es
    → FineOf (stop_election (made q p o s r es))
stop-FineOf q p o true r es v = record {
  fine = v.fine;
  owner_told = v.owner_told;
  stop_told = refl;
  ordered = (tt, v.ordered);
}
stop-FineOf q p o false r es v = record {
  fine = stop-IsFine q p o r v.fine;
  owner_told = v.owner_told;
  stop_told = refl;
  ordered = (tt, v.ordered);
}

pub step-FineOf : (e : ElectionStep) (x : Election) → FineOf x → FineOf (step e x)
unfolding step
step-FineOf grants_ownership x v = grant-FineOf x.lock.request x.phase _ _ _ x.trace v
step-FineOf refuses_term x v = refuse_term-FineOf x.lock.request x.phase _ _ _ x.trace v
step-FineOf lets_go x v = let_go-FineOf x.lock.request x.phase _ _ _ x.trace v
step-FineOf reacts x v = react-FineOf x.lock.request x.phase _ _ _ x.trace v
step-FineOf finishes x v = finish-FineOf x.lock.request x.phase _ _ _ x.trace v
step-FineOf retries x v = retry-FineOf x.lock.request x.phase _ _ _ x.trace v
step-FineOf stops x v = stop-FineOf x.lock.request x.phase _ _ _ x.trace v
step-FineOf (rejects b) x v = reject-FineOf b x.lock.request x.phase _ _ _ x.trace v
step-FineOf (grants_term b) x v = take_term-FineOf b x.lock.request x.phase _ _ _ x.trace v

run_from-FineOf : (es : List ElectionStep) (x : Election) → FineOf x → FineOf (run es x)
unfolding run
run_from-FineOf [] x v = v
run_from-FineOf (e ∷ es) x v = run_from-FineOf es _ (step-FineOf e x v)

-- In every history of an election from its start, whatever the browser grants, refuses or withdraws on
-- the signal: the tab takes part, which is to have a request under way or, in the pause after a refusal,
-- a retry, until it is stopped, and no retry afterwards; it is owner only with both locks held or their
-- end not yet noticed; the port is acquired and lost by turns; and after a stop no lock is requested and
-- the port not acquired.
pub run-FineOf : (es : List ElectionStep) → FineOf (run es (start_election new_election))
run-FineOf es =
    run_from-FineOf es (start_election new_election)
      (record { fine = (refl, refl); owner_told = refl; stop_told = refl; ordered = (refl, tt) })
