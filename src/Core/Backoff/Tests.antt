-- ===== src/Core/Backoff/Tests.antt =====
-- A connection that drops at once, and one that holds.
use serial_broker.Prelude.{◌+◌, ◌≤◌, true, some, List, [], ◌∷◌, ◌++◌, ◌≡◌, ◌↔◌, refl, arith}
use serial_broker.Core.Backoff.{
  retry_index, Call, attempts, connects, disconnects, run, has_exhausted,
}
use serial_broker.Core.Backoff.Laws.{run_since_stable, attempts_in, losses_in}

-- Newest first.
abbrev calls : List Call
calls = disconnects 120 ∷ connects 100 ∷ attempts ∷ disconnects 90 ∷ connects 70 ∷ attempts ∷ []

-- A connection that held for 60 ms.
abbrev held : List Call
held = disconnects 60 ∷ connects 0 ∷ []

second_retry : retry_index (run 50 calls) ≡ 1
unfolding run retry_index
second_retry = refl

-- The same after a connection that had held.
run_since_stable_example :
    ((run 50 (calls ++ held)).attempt ≡ attempts_in calls)
    × ((run 50 (calls ++ held)).losses ≡ losses_in calls + 1)
    × ((has_exhausted (some 2) (run 50 (calls ++ held)) ≡ true) ↔ (2 ≤ attempts_in calls))
run_since_stable_example =
    run_since_stable 50 2 held calls 1 (0, refl, omega arith, refl)
      (λ since h. ground arith, (λ since h. ground arith, tt))
