-- ===== src/Owner/WriteQueue/Order.antt =====
-- The operations of src/owner/write-queue.ts against the invariant, and the order of the jobs.
use serial_broker.Prelude.{
  ℕ, suc, ◌≤◌, Bool, true, false, none, some, List, [], ◌∷◌, ◌++◌, ◌≡◌, ◌⊎◌, refl, inl, inr, ◌||◌,
  ◌==◌, if◌then◌else◌, arith, is_some, Bool-cases, Option-cases, ◌∙◌, sym, subst,
}
use serial_broker.Owner.WriteQueue.{
  enqueued, ended, withdrawn, WriteQueue, new, has_key, delete_key, start_first, start_next,
  enqueue, withdraw, run_start, end_running, Call, enqueues, starts, ends, withdraws, step, run,
}
use serial_broker.Owner.WriteQueue.Trace.{
  Status, unknown, waits, runs, status, is_waiting, is_running, is_unknown, IsSafe, Rises, Core,
  Inv, new-Inv, has_key-append, has_key-delete_key, Rises-mono, Rises-delete_key, Rises-append,
  has_key-Rises,
}

status_waits : (s : Status) → is_waiting s ≡ true → s ≡ waits
status_waits s h = ground arith

status_runs : (s : Status) → is_running s ≡ true → s ≡ runs
status_runs s h = ground arith

status_unknown : (s : Status) → is_unknown s ≡ true → s ≡ unknown
status_unknown s h = ground arith

enqueue-Core :
    (q : WriteQueue)
    → Core q
    → Core (record q {
      next_key = suc q.next_key;
      waiting = q.waiting ++ q.next_key ∷ [];
      trace = enqueued q.next_key ∷ q.trace;
    })
enqueue-Core q c = record {
  waiting_iff = λ k. rw (has_key-append q.next_key k q.waiting) (ground (arith, c.waiting_iff k));
  running_iff = λ k. ground (arith, c.running_iff k, c.unknown_iff k);
  unknown_iff = λ k. ground (arith, c.unknown_iff k);
  rises =
      Rises-append 0 q.next_key q.waiting (λ j. ground (arith, c.waiting_iff j, c.unknown_iff j))
        (omega arith) c.rises;
  safe = ((status_unknown _ (c.unknown_iff q.next_key ∙ ground arith), c.unknown_iff), c.safe);
}

withdraw-Core :
    (k : ℕ) (q : WriteQueue)
    → Core q
    → has_key k q.waiting ≡ true
    → Core (record q { waiting = delete_key k q.waiting; trace = withdrawn k ∷ q.trace })
withdraw-Core k q c there = record {
  waiting_iff = λ j. rw (has_key-delete_key k j q.waiting) (ground (arith, c.waiting_iff j));
  running_iff = λ j. ground (arith, c.running_iff j, c.waiting_iff j);
  unknown_iff = λ j. ground (arith, c.unknown_iff j, c.waiting_iff j);
  rises = Rises-delete_key 0 k q.waiting c.rises;
  safe = (status_waits _ (c.waiting_iff k ∙ there), c.safe);
}

end-Core :
    (k : ℕ) (q : WriteQueue)
    → Core q
    → q.running ≡ some k
    → Core (record q { running = none; trace = ended k ∷ q.trace })
end-Core k q c e = record {
  waiting_iff = λ j. ground (arith, c.running_iff j, c.waiting_iff j);
  running_iff = λ j. ground (arith, c.running_iff j);
  unknown_iff = λ j. ground (arith, c.unknown_iff j, c.running_iff j);
  rises = c.rises;
  safe = (status_runs _ (c.running_iff k ∙ ground arith), c.safe);
}

module _ (q : WriteQueue) (c : Core q) (k : ℕ) (ks : List ℕ) (w : q.waiting ≡ k ∷ ks) where
  first_waits : (j : ℕ) → is_waiting (status j q.trace) ≡ k == j || has_key j ks
  unfolding has_key
  first_waits j = c.waiting_iff j ∙ rw w

  first-Rises : Rises (suc k) ks
  first-Rises = (subst (Rises 0) w c.rises).1

  first_least : (j : ℕ) → (is_waiting (status j q.trace) ≡ false) ⊎ (k ≤ j)
  first_least j = ground (arith, first_waits j, has_key-Rises (suc k) j ks first-Rises)

-- The queue after `#startNext`, where no job runs.
start_first-Core :
    (ks : List ℕ) (q : WriteQueue)
    → q.waiting ≡ ks
    → q.running ≡ none
    → Core q
    → Core (start_first ks q)
start_first-Core [] q w r c = c
start_first-Core (k ∷ ks) q w r c = record {
  waiting_iff = λ j.
      ground (arith, first_waits q c k ks w j, has_key-Rises (suc k) j ks (first-Rises q c k ks w));
  running_iff = λ j. ground (arith, c.running_iff j);
  unknown_iff = λ j. ground (arith, c.unknown_iff j, first_waits q c k ks w j);
  rises = Rises-mono 0 (suc k) ks (omega arith) (first-Rises q c k ks w);
  safe = (
    (
      status_waits _ (first_waits q c k ks w k ∙ ground arith),
      (λ j. c.running_iff j ∙ ground arith),
      first_least q c k ks w,
    ),
    c.safe,
  );
}

start_first_live :
    (ks : List ℕ) (q : WriteQueue)
    → q.waiting ≡ ks
    → (q.running ≡ none) ⊎ (q.is_start_scheduled ≡ false)
    → q.is_start_scheduled ≡ false
    → ((start_first ks q).waiting ≡ [])
      ⊎ (is_some (start_first ks q).running || (start_first ks q).is_start_scheduled ≡ true)
start_first_live [] q w i off = inl w
start_first_live (k ∷ ks) q w i off = inr refl

start_first_off :
    (ks : List ℕ) (q : WriteQueue) → (start_first ks q).is_start_scheduled ≡ q.is_start_scheduled
start_first_off [] q = refl
start_first_off (k ∷ ks) q = refl

if_false : {A : Type 0} (b : Bool) (x y : A) → b ≡ false → (if b then x else y) ≡ y
if_false b x y h = rw h refl

start_next_idle : (q : WriteQueue) → q.running ≡ none → start_next q ≡ start_first q.waiting q
start_next_idle q r =
    let off : is_some q.running ≡ false = ground arith in if_false (is_some q.running) q _ off

start_next-Inv :
    (q : WriteQueue) → Core q → q.running ≡ none → q.is_start_scheduled ≡ false → Inv (start_next q)
start_next-Inv q c r off = subst Inv (sym (start_next_idle q r)) (record {
  core = start_first-Core q.waiting q refl r c;
  live = start_first_live q.waiting q refl (inr off) off;
  idle = inr (start_first_off q.waiting q ∙ off);
})

-- The record fields of the core say nothing of a scheduled start.
Core-is_start_scheduled :
    (q : WriteQueue) (b : Bool) → Core q → Core (record q { is_start_scheduled = b })
Core-is_start_scheduled q b c = record {
  waiting_iff = c.waiting_iff;
  running_iff = c.running_iff;
  unknown_iff = c.unknown_iff;
  rises = c.rises;
  safe = c.safe;
}

enqueue-Inv : (q : WriteQueue) → Inv q → Inv (enqueue q)
unfolding enqueue
enqueue-Inv q v = elim (Bool-cases (is_some q.running || q.is_start_scheduled)) [
  | inl busy ↦ rw busy (record { core = enqueue-Core q v.core; live = inr busy; idle = v.idle })
  | inr quiet ↦ rw quiet (record {
    core = Core-is_start_scheduled _ true (enqueue-Core q v.core);
    live = inr (ground arith);
    idle = inl (ground (arith, quiet));
  })
]

delete_key-live :
    (k : ℕ) (ks : List ℕ) (b : Bool) → (ks ≡ []) ⊎ (b ≡ true) → (delete_key k ks ≡ []) ⊎ (b ≡ true)
unfolding delete_key
delete_key-live k [] b h = inl refl
delete_key-live k (j ∷ ks) b h = ground (arith, h)

withdraw-Inv : (k : ℕ) (q : WriteQueue) → Inv q → Inv (withdraw k q).0
unfolding withdraw
withdraw-Inv k q v = elim (Bool-cases (has_key k q.waiting)) [
  | inr absent ↦ rw absent v
  | inl there ↦ rw there (record {
    core = withdraw-Core k q v.core there;
    live = delete_key-live k q.waiting _ v.live;
    idle = v.idle;
  })
]

run_start-Inv : (q : WriteQueue) → Inv q → Inv (run_start q)
unfolding run_start
run_start-Inv q v = elim (Bool-cases q.is_start_scheduled) [
  | inr off ↦ subst Inv (sym (if_false q.is_start_scheduled _ q off)) v
  | inl on ↦ rw on (
      start_next-Inv (record q { is_start_scheduled = false })
        (Core-is_start_scheduled q false v.core) (ground (arith, v.idle)) refl)
]

end_running-Inv : (q : WriteQueue) → Inv q → Inv (end_running q)
unfolding end_running
end_running-Inv q v = elim (Option-cases q.running) [
  | inl quiet ↦ rw (quiet, end_running) v
  | inr (k, busy) ↦
      rw (busy, end_running)
        (start_next-Inv _ (end-Core k q v.core busy) refl (ground (arith, v.idle)))
]

pub step-Inv : (c : Call) (q : WriteQueue) → Inv q → Inv (step c q)
unfolding step
step-Inv enqueues q v = enqueue-Inv q v
step-Inv starts q v = run_start-Inv q v
step-Inv ends q v = end_running-Inv q v
step-Inv (withdraws k) q v = withdraw-Inv k q v

pub run-Inv : (cs : List Call) (q : WriteQueue) → Inv q → Inv (run cs q)
unfolding run
run-Inv [] q v = v
run-Inv (c ∷ cs) q v = run-Inv cs (step c q) (step-Inv c q v)

-- Whatever the calls, in any order: the jobs run one at a time and each starts before every job
-- queued after it that still waits, an entry that was withdrawn or has run never starts again, and
-- a job ends only once.
pub run-new-IsSafe : (cs : List Call) → IsSafe (run cs new).trace
run-new-IsSafe cs = (run-Inv cs new new-Inv).core.safe

-- Whatever the calls, an entry that waits is never stranded: a job runs, whose end starts the next
-- one, or a start is scheduled.
pub run-new-live :
    (cs : List Call)
    → ((run cs new).waiting ≡ [])
      ⊎ (is_some (run cs new).running || (run cs new).is_start_scheduled ≡ true)
run-new-live cs = (run-Inv cs new new-Inv).live
