-- ===== src/Owner/Election/Ends.antt =====
-- The end of a stopped election (src/owner/election.ts).
use serial_broker.Prelude.{Bool, true, false, List, [], ◌∷◌, ◌≡◌, refl, sym, subst}
use serial_broker.Core.HeldLock.{
  Outcome, returned, aborted, refused, LockRequest, no_request, waits, holds, ends, settled,
}
use serial_broker.Owner.Election.{
  ElectionEvent, TermPhase, outside, asks, owns, Election, new_election, start_election, react,
  finish_request, ElectionStep, rejects, grants_term, lets_go, reacts, finishes, step, run,
}
use serial_broker.Owner.Election.Fine.{IsFine, FineOf, made}
use serial_broker.Owner.Election.Histories.{run-FineOf}

-- What the browser still does once the election is stopped: a request that waits is withdrawn, the lock
-- of a term that was asked for is granted, and what has ended is noticed.
abbrev pub last_steps : LockRequest → TermPhase → List ElectionStep
last_steps no_request p = []
last_steps waits p = rejects true ∷ reacts ∷ finishes ∷ []
last_steps holds asks = grants_term false ∷ reacts ∷ finishes ∷ []
last_steps holds _ = lets_go ∷ reacts ∷ finishes ∷ []
last_steps (settled e) p = reacts ∷ finishes ∷ []
last_steps ends p = finishes ∷ []

abbrev IsOut : Election → Type 0
IsOut s = (s.lock.request ≡ no_request) × (s.is_owner ≡ false)

finish_request-IsOut :
    (p : TermPhase) (o r : Bool) (es : List ElectionEvent)
    → IsOut (finish_request (made ends p o true r es))
finish_request-IsOut p true r es = (refl, refl)
finish_request-IsOut p false r es = (refl, refl)

reacted-IsOut :
    (e : Outcome) (p : TermPhase) (o r : Bool) (es : List ElectionEvent)
    → IsOut (finish_request (react (made (settled e) p o true r es)))
reacted-IsOut returned p o r es = finish_request-IsOut p o r es
reacted-IsOut aborted p o r es = finish_request-IsOut p o r es
reacted-IsOut refused p o r es = finish_request-IsOut p o r es

last_steps-IsOut :
    (q : LockRequest) (p : TermPhase) (o r : Bool) (es : List ElectionEvent)
    → IsFine q p o true r
    → IsOut (run (last_steps q p) (made q p o true r es))
unfolding run step
last_steps-IsOut no_request outside o r es h = (refl, h.0)
last_steps-IsOut no_request asks o r es h = absurd h
last_steps-IsOut no_request owns o r es h = absurd h
last_steps-IsOut waits p o r es h = finish_request-IsOut p o r es
last_steps-IsOut holds asks o r es h = finish_request-IsOut outside o r es
last_steps-IsOut holds owns o r es h = finish_request-IsOut outside o r es
last_steps-IsOut holds outside o r es h = absurd h
last_steps-IsOut (settled e) p o r es h = reacted-IsOut e p o r es
last_steps-IsOut ends p o r es h = finish_request-IsOut p o r es

stopped-IsOut :
    (x : Election)
    → FineOf x
    → x.lock.is_stopped ≡ true
    → IsOut (run (last_steps x.lock.request x.phase) x)
stopped-IsOut x v over =
    subst
      (λ b. IsOut (
        run (last_steps x.lock.request x.phase)
          (made x.lock.request x.phase x.is_owner b x.lock.has_retry x.trace)))
      (sym over)
      (last_steps-IsOut x.lock.request x.phase x.is_owner x.lock.has_retry x.trace
        (subst (λ b. IsFine x.lock.request x.phase x.is_owner b x.lock.has_retry) over v.fine))

-- Wherever a stop finds an election, once the browser has withdrawn the request that waits, granted the
-- lock of the term that was asked for, or let the locks go, and the end of the request was noticed, no
-- request is under way and the tab is not owner.
pub run-last_steps :
    (es : List ElectionStep)
    → (run es (start_election new_election)).lock.is_stopped ≡ true
    → ((run
          (last_steps
            (run es (start_election new_election)).lock.request
            (run es (start_election new_election)).phase)
          (run es (start_election new_election))).lock.request
        ≡ no_request)
      × ((run
            (last_steps
              (run es (start_election new_election)).lock.request
              (run es (start_election new_election)).phase)
            (run es (start_election new_election))).is_owner
          ≡ false)
run-last_steps es over = stopped-IsOut (run es (start_election new_election)) (run-FineOf es) over
