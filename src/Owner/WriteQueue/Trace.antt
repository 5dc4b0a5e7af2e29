-- ===== src/Owner/WriteQueue/Trace.antt =====
-- What the trace says of an entry, and the invariant that ties the queue to it.
use serial_broker.Prelude.{
  ℕ, suc, ◌≤◌, ◌<◌, Bool, true, false, none, List, [], ◌∷◌, ◌++◌, ◌≡◌, ◌⊎◌, refl, inl, inr, ◌||◌,
  ◌==◌, if◌then◌else◌, arith, is_some, is_value, leb, Bool-cases,
}
use serial_broker.Owner.WriteQueue.{
  QueueEvent, enqueued, started, ended, withdrawn, WriteQueue, new, has_key, delete_key,
}

pub data Status : Type 0 where
  unknown waits runs has_ended was_withdrawn : Status

abbrev pub status : ℕ → List QueueEvent → Status
status k [] = unknown
status k (enqueued j ∷ es) = if j == k then waits else status k es
status k (started j ∷ es) = if j == k then runs else status k es
status k (ended j ∷ es) = if j == k then has_ended else status k es
status k (withdrawn j ∷ es) = if j == k then was_withdrawn else status k es

abbrev pub is_waiting : Status → Bool
is_waiting waits = true
is_waiting _ = false

abbrev pub is_running : Status → Bool
is_running runs = true
is_running _ = false

abbrev pub is_unknown : Status → Bool
is_unknown unknown = true
is_unknown _ = false

-- What may happen to an entry, given what has happened before. A job starts while no job runs, out
-- of the entries that wait, and before every entry queued later.
abbrev pub IsAllowed : QueueEvent → List QueueEvent → Type 0
IsAllowed (enqueued k) es = (status k es ≡ unknown) × ((j : ℕ) → is_unknown (status j es) ≡ leb k j)
IsAllowed (started k) es =
    (status k es ≡ waits)
    × ((j : ℕ) → is_running (status j es) ≡ false)
    × ((j : ℕ) → (is_waiting (status j es) ≡ false) ⊎ (k ≤ j))
IsAllowed (ended k) es = status k es ≡ runs
IsAllowed (withdrawn k) es = status k es ≡ waits

abbrev pub IsSafe : List QueueEvent → Type 0
IsSafe [] = Unit
IsSafe (e ∷ es) = IsAllowed e es × IsSafe es

-- The keys rise along the list, from `b` on.
abbrev pub Rises : ℕ → List ℕ → Type 0
Rises b [] = Unit
Rises b (k ∷ ks) = (b ≤ k) × Rises (suc k) ks

-- The lists of the queue say what the trace says.
pub record Core (q : WriteQueue) : Type 0 where
  pub waiting_iff : (k : ℕ) → is_waiting (status k q.trace) ≡ has_key k q.waiting
  pub running_iff : (k : ℕ) → is_running (status k q.trace) ≡ is_value q.running k
  pub unknown_iff : (k : ℕ) → is_unknown (status k q.trace) ≡ leb q.next_key k
  pub rises : Rises 0 q.waiting
  pub safe : IsSafe q.trace

pub record Inv (q : WriteQueue) : Type 0 where
  pub core : Core q
  -- An entry that waits is never stranded: a job runs, or a start is scheduled.
  pub live : (q.waiting ≡ []) ⊎ (is_some q.running || q.is_start_scheduled ≡ true)
  -- A start is scheduled only while no job runs.
  pub idle : (q.running ≡ none) ⊎ (q.is_start_scheduled ≡ false)

new-Core : Core new
unfolding has_key
new-Core = record {
  waiting_iff = λ k. refl;
  running_iff = λ k. refl;
  unknown_iff = λ k. ground arith;
  rises = tt;
  safe = tt;
}

pub new-Inv : Inv new
new-Inv = record { core = new-Core; live = inl refl; idle = inl refl }

pub has_key-append :
    (k j : ℕ) (js : List ℕ) → has_key j (js ++ k ∷ []) ≡ (if k == j then true else has_key j js)
unfolding has_key
has_key-append k j [] = ground arith
has_key-append k j (i ∷ js) = ground (arith, has_key-append k j js)

pub has_key-delete_key :
    (k j : ℕ) (js : List ℕ) → has_key j (delete_key k js) ≡ (if k == j then false else has_key j js)
unfolding has_key delete_key
has_key-delete_key k j [] = ground arith
has_key-delete_key k j (i ∷ js) = ground (arith, has_key-delete_key k j js)

pub Rises-mono : (b c : ℕ) (ks : List ℕ) → b ≤ c → Rises c ks → Rises b ks
Rises-mono b c [] h r = tt
Rises-mono b c (k ∷ ks) h r = (omega arith, r.1)

pub Rises-delete_key : (b k : ℕ) (ks : List ℕ) → Rises b ks → Rises b (delete_key k ks)
unfolding delete_key
Rises-delete_key b k [] r = tt
Rises-delete_key b k (j ∷ ks) r = elim (Bool-cases (j == k)) [
  | inl same ↦
      rw same
        (Rises-mono b (suc j) (delete_key k ks) (omega arith) (Rises-delete_key (suc j) k ks r.1))
  | inr other ↦ rw other (r.0, Rises-delete_key (suc j) k ks r.1)
]

-- Nothing below the bound is in a list that rises from it.
pub has_key-Rises : (b j : ℕ) (ks : List ℕ) → Rises b ks → (has_key j ks ≡ false) ⊎ (b ≤ j)
unfolding has_key
has_key-Rises b j [] r = inl refl
has_key-Rises b j (k ∷ ks) r = ground (arith, has_key-Rises (suc k) j ks r.1)

pub Rises-append :
    (b k : ℕ) (ks : List ℕ)
    → ((j : ℕ) → (has_key j ks ≡ false) ⊎ (j < k))
    → b ≤ k
    → Rises b ks
    → Rises b (ks ++ k ∷ [])
unfolding has_key
Rises-append b k [] below h r = (h, tt)
Rises-append b k (j ∷ ks) below h r =
    let j<k : j < k = ground (arith, below j) in
    (r.0, Rises-append (suc j) k ks (λ i. ground (arith, below i)) j<k r.1)
