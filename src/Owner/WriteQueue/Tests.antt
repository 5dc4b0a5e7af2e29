-- ===== src/Owner/WriteQueue/Tests.antt =====
-- Runs of the queue at concrete calls.
use serial_broker.Prelude.{true, some, List, [], ◌∷◌, ◌≡◌, ◌⊎◌, ◌||◌, refl, is_some}
use serial_broker.Owner.WriteQueue.{
  new, has_key, depth, run_start, Call, enqueues, starts, withdraws, run, step, enqueue, withdraw,
  delete_key,
}
use serial_broker.Owner.WriteQueue.Trace.{IsSafe}
use serial_broker.Owner.WriteQueue.Order.{run-new-IsSafe, run-new-live}
use serial_broker.Owner.WriteQueue.Drain.{run-drained, ends_times}

-- Three jobs are queued, the second is withdrawn, and the first runs.
abbrev calls : List Call
calls = enqueues ∷ enqueues ∷ starts ∷ enqueues ∷ withdraws 1 ∷ []

waits_after : (run calls new).waiting ≡ 2 ∷ []
unfolding run step enqueue withdraw run_start has_key delete_key
waits_after = refl

runs_after : (run calls new).running ≡ some 0
unfolding run step enqueue withdraw run_start has_key delete_key
runs_after = refl

run-new-IsSafe_example : IsSafe (run calls new).trace
run-new-IsSafe_example = run-new-IsSafe calls

run-new-live_example :
    ((run calls new).waiting ≡ [])
    ⊎ (is_some (run calls new).running || (run calls new).is_start_scheduled ≡ true)
run-new-live_example = run-new-live calls

run-drained_example :
    depth (run (ends_times (depth (run_start (run calls new)))) (run_start (run calls new))) ≡ 0
run-drained_example = run-drained calls
