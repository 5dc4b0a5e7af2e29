-- ===== src/Owner/WriteQueue/Drain.antt =====
-- `drain` and `depth` of src/owner/write-queue.ts.
use serial_broker.Prelude.{
  ℕ, zero, suc, false, none, some, List, [], ◌∷◌, ◌≡◌, ◌⊎◌, refl, inl, inr, ◌||◌, arith,
  Option-cases, ◌∙◌, length,
}
use serial_broker.Owner.WriteQueue.{
  WriteQueue, new, has_key, start_first, run_start, end_running, drain_pending, depth, Call, starts,
  ends, step, run,
}
use serial_broker.Owner.WriteQueue.Trace.{
  status, is_waiting, is_running, Inv, new-Inv, has_key-append,
}
use serial_broker.Owner.WriteQueue.Order.{run-Inv, step-Inv}

pending_iff :
    (k : ℕ) (q : WriteQueue)
    → Inv q
    → has_key k (drain_pending q) ≡ is_waiting (status k q.trace) || is_running (status k q.trace)
unfolding drain_pending
pending_iff k q v = elim (Option-cases q.running) [
  | inl quiet ↦ rw quiet (ground (arith, quiet, v.core.waiting_iff k, v.core.running_iff k))
  | inr (j, busy) ↦
      ground (arith, busy, v.core.waiting_iff k, v.core.running_iff k, has_key-append j k q.waiting)
]

-- Whatever the calls before it, `drain` waits for exactly the entries that wait or run.
pub drain_pending_iff :
    (k : ℕ) (cs : List Call)
    → has_key k (drain_pending (run cs new))
      ≡ is_waiting (status k (run cs new).trace) || is_running (status k (run cs new).trace)
drain_pending_iff k cs = pending_iff k (run cs new) (run-Inv cs new new-Inv)

start_first-depth :
    (ks : List ℕ) (q : WriteQueue)
    → q.waiting ≡ ks
    → q.running ≡ none
    → depth (start_first ks q) ≡ length ks
unfolding depth
start_first-depth [] q w r = rw (w, r) refl
start_first-depth (k ∷ ks) q w r = omega arith

start_first-scheduled :
    (ks : List ℕ) (q : WriteQueue) → (start_first ks q).is_start_scheduled ≡ q.is_start_scheduled
start_first-scheduled [] q = refl
start_first-scheduled (k ∷ ks) q = refl

end_running-depth :
    (q : WriteQueue) (k n : ℕ)
    → q.running ≡ some k
    → depth q ≡ suc n
    → (depth (end_running q) ≡ n) × ((end_running q).is_start_scheduled ≡ q.is_start_scheduled)
unfolding end_running depth
end_running-depth q k n r d = rw r (
  start_first-depth q.waiting _ refl refl ∙ ground (arith, r, d),
  start_first-scheduled q.waiting _,
)

-- With no start scheduled, a queue that is not empty runs a job.
busy_or_empty :
    (q : WriteQueue)
    → Inv q
    → q.is_start_scheduled ≡ false
    → (depth q ≡ 0) ⊎ ((k : ℕ) × (q.running ≡ some k))
unfolding depth
busy_or_empty q v off = elim (Option-cases q.running) [
  | inr busy ↦ inr busy
  | inl quiet ↦
      inl (elim v.live [ inl w ↦ rw (w, quiet) refl | inr on ↦ ground (arith, quiet, off, on) ])
]

-- The calls in which `n` running jobs end, one after another.
abbrev pub ends_times : ℕ → List Call
ends_times zero = []
ends_times (suc n) = ends ∷ ends_times n

run_ends-depth :
    (n : ℕ) (q : WriteQueue)
    → Inv q
    → q.is_start_scheduled ≡ false
    → depth q ≡ n
    → depth (run (ends_times n) q) ≡ 0
unfolding run step
run_ends-depth zero q v off d = d
run_ends-depth (suc n) q v off d = elim (busy_or_empty q v off) [
  | inl empty ↦ ground (arith, d, empty)
  | inr (k, busy) ↦
      let next = end_running-depth q k n busy d in
      run_ends-depth n (step ends q) (step-Inv ends q v) (next.1 ∙ off) next.0
]

run_start-scheduled : (q : WriteQueue) → (run_start q).is_start_scheduled ≡ false
unfolding run_start
run_start-scheduled q =
    ground (arith, start_first-scheduled q.waiting (record q { is_start_scheduled = false }))

drained :
    (q : WriteQueue) → Inv q → depth (run (ends_times (depth (run_start q))) (run_start q)) ≡ 0
unfolding step
drained q v =
    run_ends-depth (depth (run_start q)) (run_start q) (step-Inv starts q v) (run_start-scheduled q)
      refl

-- Whatever the calls before it, the queue runs empty: once the scheduled start has run, every
-- further end of the running job starts the next one, and after as many ends as entries then wait
-- or run, none does.
pub run-drained :
    (cs : List Call)
    → depth (run (ends_times (depth (run_start (run cs new)))) (run_start (run cs new))) ≡ 0
run-drained cs = drained (run cs new) (run-Inv cs new new-Inv)
