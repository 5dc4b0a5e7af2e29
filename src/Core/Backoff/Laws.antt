-- ===== src/Core/Backoff/Laws.antt =====
-- What the two counts of src/core/backoff.ts are, from the history of calls.
use serial_broker.Prelude.{
  true, false, ℕ, suc, Option, none, some, List, [], ◌∷◌, ◌++◌, ◌+◌, ◌≤◌, ◌<◌, ◌≡◌, ◌↔◌, refl, sym,
  arith, if◌then◌else◌,
}
use serial_broker.Core.Backoff.{
  was_stable, record_attempt, record_connected, record_disconnected, reset, Call, attempts, resets,
  connects, disconnects, step, run, has_exhausted,
}

-- When the connection that is up was made: the last one since it was lost or the count reset.
abbrev pub up_since : List Call → Option ℕ
up_since [] = none
up_since (attempts ∷ cs) = up_since cs
up_since (resets ∷ cs) = none
up_since (connects now ∷ cs) = some now
up_since (disconnects now ∷ cs) = none

-- The attempts, and the losses, since the last reset and the last loss of a connection that had
-- held for `stable` milliseconds; that loss counts.
abbrev count_attempts : ℕ → List Call → ℕ
count_attempts stable [] = 0
count_attempts stable (attempts ∷ cs) = suc (count_attempts stable cs)
count_attempts stable (resets ∷ cs) = 0
count_attempts stable (connects now ∷ cs) = count_attempts stable cs
count_attempts stable (disconnects now ∷ cs) =
    if was_stable (up_since cs) now stable then 0 else count_attempts stable cs

abbrev count_losses : ℕ → List Call → ℕ
count_losses stable [] = 0
count_losses stable (attempts ∷ cs) = count_losses stable cs
count_losses stable (resets ∷ cs) = 0
count_losses stable (connects now ∷ cs) = count_losses stable cs
count_losses stable (disconnects now ∷ cs) =
    if was_stable (up_since cs) now stable then 1 else suc (count_losses stable cs)

run-counts :
    (stable : ℕ) (cs : List Call)
    → ((run stable cs).attempt ≡ count_attempts stable cs)
      × ((run stable cs).losses ≡ count_losses stable cs)
      × ((run stable cs).connected_at ≡ up_since cs)
unfolding run step record_attempt record_connected record_disconnected reset
run-counts stable [] = (refl, refl, refl)
run-counts stable (attempts ∷ cs) = let ih = run-counts stable cs in ground (arith, ih)
run-counts stable (resets ∷ cs) = (refl, refl, refl)
run-counts stable (connects now ∷ cs) = let ih = run-counts stable cs in ground (arith, ih)
run-counts stable (disconnects now ∷ cs) = let ih = run-counts stable cs in ground (arith, ih)

-- The history begins a new count: nothing has happened, the count was reset, or a connection was lost
-- that had held for `stable` milliseconds, whose loss counts.
abbrev pub StartsOver : ℕ → List Call → ℕ → Type 0
StartsOver stable [] n = n ≡ 0
StartsOver stable (resets ∷ cs) n = n ≡ 0
StartsOver stable (disconnects now ∷ cs) n =
    (since : ℕ) × (up_since cs ≡ some since) × (since + stable ≤ now) × (n ≡ 1)
StartsOver stable (_ ∷ cs) n = ⊥

-- Of the calls `newer`, that came after `older`, none resets the count, and every connection that was
-- lost had held for less than `stable` milliseconds.
abbrev pub AreShort : ℕ → List Call → List Call → Type 0
AreShort stable older [] = Unit
AreShort stable older (attempts ∷ cs) = AreShort stable older cs
AreShort stable older (resets ∷ cs) = ⊥
AreShort stable older (connects now ∷ cs) = AreShort stable older cs
AreShort stable older (disconnects now ∷ cs) =
    ((since : ℕ) → up_since (cs ++ older) ≡ some since → now < since + stable)
    × AreShort stable older cs

-- How many of the calls are attempts, and how many are losses.
abbrev pub attempts_in : List Call → ℕ
attempts_in [] = 0
attempts_in (attempts ∷ cs) = suc (attempts_in cs)
attempts_in (_ ∷ cs) = attempts_in cs

abbrev pub losses_in : List Call → ℕ
losses_in [] = 0
losses_in (disconnects now ∷ cs) = suc (losses_in cs)
losses_in (_ ∷ cs) = losses_in cs

short_is_unstable :
    (up : Option ℕ) (now stable : ℕ)
    → ((since : ℕ) → up ≡ some since → now < since + stable)
    → was_stable up now stable ≡ false
short_is_unstable none now stable h = refl
short_is_unstable (some since) now stable h = let late = h since refl in ground (arith, late)

counts_from :
    (stable : ℕ) (older : List Call) (n : ℕ)
    → StartsOver stable older n
    → (count_attempts stable older ≡ 0) × (count_losses stable older ≡ n)
counts_from stable [] n h = (refl, sym h)
counts_from stable (resets ∷ cs) n h = (refl, sym h)
counts_from stable (disconnects now ∷ cs) n (since, up, held, e) =
    let long : was_stable (up_since cs) now stable ≡ true = rw up (ground (arith, held)) in
    (rw long, rw long (sym e))
counts_from stable (attempts ∷ cs) n h = elim h [ ]
counts_from stable (connects now ∷ cs) n h = elim h [ ]

counts_on :
    (stable : ℕ) (older newer : List Call)
    → AreShort stable older newer
    → (count_attempts stable (newer ++ older) ≡ attempts_in newer + count_attempts stable older)
      × (count_losses stable (newer ++ older) ≡ losses_in newer + count_losses stable older)
counts_on stable older [] h = (omega arith, omega arith)
counts_on stable older (attempts ∷ cs) h =
    let ih = counts_on stable older cs h in (omega (arith, ih.0), ih.1)
counts_on stable older (resets ∷ cs) h = elim h [ ]
counts_on stable older (connects now ∷ cs) h = counts_on stable older cs h
counts_on stable older (disconnects now ∷ cs) h =
    let ih = counts_on stable older cs h.1 in
    let short = short_is_unstable (up_since (cs ++ older)) now stable h.0 in
    (rw short ih.0, rw short (omega (arith, ih.1)))

-- After a new count began, by nothing having happened, by a reset or by the loss of a connection that
-- had held for `stableAfterMs`, and as long as there is no reset and every connection that is lost had
-- held for less: the attempts and the losses are all those since then, with the loss that began it, and
-- the attempts are exhausted exactly when there have been `maxAttempts` since then.
pub run_since_stable :
    (stable max_attempts : ℕ) (older newer : List Call) (n : ℕ)
    → StartsOver stable older n
    → AreShort stable older newer
    → ((run stable (newer ++ older)).attempt ≡ attempts_in newer)
      × ((run stable (newer ++ older)).losses ≡ losses_in newer + n)
      × ((has_exhausted (some max_attempts) (run stable (newer ++ older)) ≡ true)
          ↔ (max_attempts ≤ attempts_in newer))
unfolding has_exhausted
run_since_stable stable max_attempts older newer n start short =
    let counts = run-counts stable (newer ++ older) in
    let from = counts_from stable older n start in
    let on = counts_on stable older newer short in
    let attempt : (run stable (newer ++ older)).attempt ≡ attempts_in newer =
      omega (arith, counts.0, on.0, from.0) in
    (attempt, omega (arith, counts.1, on.1, from.1), rw attempt (ground arith))
