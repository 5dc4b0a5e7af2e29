-- ===== src/Owner/Election/Tests.antt =====
-- Runs of src/owner/election.ts.
use serial_broker.Prelude.{true, false, List, [], ◌∷◌, ◌≡◌, refl}
use serial_broker.Core.HeldLock.{no_request}
use serial_broker.Owner.Election.{
  new_election, start_election, ElectionStep, grants_ownership, rejects, grants_term, reacts,
  finishes, retries, stops, step, run,
}
use serial_broker.Owner.Election.Fine.{FineOf}
use serial_broker.Owner.Election.Histories.{run-FineOf}
use serial_broker.Owner.Election.Ends.{last_steps, run-last_steps}

-- A refusal, a retry, and the port until a stop.
abbrev until_stop : List ElectionStep
until_stop =
    rejects false ∷ reacts ∷ finishes ∷ retries ∷ grants_ownership ∷ grants_term false ∷ stops ∷ []

run-FineOf_example : FineOf (run until_stop (start_election new_election))
run-FineOf_example = run-FineOf until_stop

run-last_steps_example :
    ((run
        (last_steps
          (run until_stop (start_election new_election)).lock.request
          (run until_stop (start_election new_election)).phase)
        (run until_stop (start_election new_election))).lock.request
      ≡ no_request)
    × ((run
          (last_steps
            (run until_stop (start_election new_election)).lock.request
            (run until_stop (start_election new_election)).phase)
          (run until_stop (start_election new_election))).is_owner
        ≡ false)
unfolding run step
run-last_steps_example = run-last_steps until_stop refl

is_owner_before : (run (until_stop) (start_election new_election)).is_owner ≡ true
unfolding run step
is_owner_before = refl
