-- ===== src/Owner/WriteQueue.antt =====
-- src/owner/write-queue.ts: jobs run strictly one after another. A job is an opaque closure, and an
-- entry is named by the key it is queued under. What a promise or a microtask runs later is an
-- operation of its own: `run_start` is the microtask of `#scheduleStart`, `end_running` what runs
-- once the promise of `entry.start()` has settled. `trace` is what happened to each entry, newest
-- first; the code acts on none of it.
pub mod Trace
pub mod Order
pub mod Drain
mod Tests
use serial_broker.Prelude.{
  ℕ, suc, ◌+◌, Bool, true, false, Option, none, some, List, [], ◌∷◌, ◌++◌, ◌||◌, ◌==◌,
  if◌then◌else◌, is_some, length,
}

pub data QueueEvent : Type 0 where
  enqueued : ℕ → QueueEvent
  started : ℕ → QueueEvent
  ended : ℕ → QueueEvent
  withdrawn : ℕ → QueueEvent

pub record WriteQueue : Type 0 where
  pub waiting : List ℕ
  pub running : Option ℕ
  pub next_key : ℕ
  pub is_start_scheduled : Bool
  pub trace : List QueueEvent

abbrev pub new : WriteQueue
new = record { waiting = []; running = none; next_key = 0; is_start_scheduled = false; trace = [] }

abbrev count_running : Option ℕ → ℕ
count_running none = 0
count_running (some k) = 1

pub depth : WriteQueue → ℕ
depth q = length q.waiting + count_running q.running

pub has_key : ℕ → List ℕ → Bool
has_key k [] = false
has_key k (j ∷ js) = j == k || has_key k js

pub delete_key : ℕ → List ℕ → List ℕ
delete_key k [] = []
delete_key k (j ∷ js) = let rest = delete_key k js in if j == k then rest else j ∷ rest

-- `#scheduleStart`
abbrev pub schedule_start : WriteQueue → WriteQueue
schedule_start q =
    if is_some q.running || q.is_start_scheduled then q else record q { is_start_scheduled = true }

-- `#startNext`, from the entries that wait.
abbrev start_first : List ℕ → WriteQueue → WriteQueue
start_first [] q = q
start_first (k ∷ ks) q = record q { waiting = ks; running = some k; trace = started k ∷ q.trace }

abbrev pub start_next : WriteQueue → WriteQueue
start_next q = if is_some q.running then q else start_first q.waiting q

-- `enqueueWithdrawable`; the key of the new entry is `q.next_key`.
pub enqueue : WriteQueue → WriteQueue
enqueue q = schedule_start (record q {
  next_key = suc q.next_key;
  waiting = q.waiting ++ q.next_key ∷ [];
  trace = enqueued q.next_key ∷ q.trace;
})

-- `withdraw` of the entry queued under `k`.
pub withdraw : ℕ → WriteQueue → WriteQueue × Bool
withdraw k q =
    if has_key k q.waiting
    then (record q { waiting = delete_key k q.waiting; trace = withdrawn k ∷ q.trace }, true)
    else (q, false)

-- The microtask, if one is queued.
pub run_start : WriteQueue → WriteQueue
run_start q =
    if q.is_start_scheduled then start_next (record q { is_start_scheduled = false }) else q

-- The running job has settled, if one runs.
pub end_running : WriteQueue → WriteQueue
end_running q = elim q.running [
  | none ↦ q
  | some k ↦ start_next (record q { running = none; trace = ended k ∷ q.trace })
]

-- The entries whose end `drain` waits for.
pub drain_pending : WriteQueue → List ℕ
drain_pending q = elim q.running [ none ↦ q.waiting | some k ↦ q.waiting ++ k ∷ [] ]

pub data Call : Type 0 where
  enqueues starts ends : Call
  withdraws : ℕ → Call

pub step : Call → WriteQueue → WriteQueue
step enqueues q = enqueue q
step starts q = run_start q
step ends q = end_running q
step (withdraws k) q = (withdraw k q).0

pub run : List Call → WriteQueue → WriteQueue
run [] q = q
run (c ∷ cs) q = run cs (step c q)
