-- ===== src/Client/TabSlot/Counts.antt =====
-- How many places are held, and how many requests have not ended.
use serial_broker.Prelude.{ℕ, zero, suc, ◌+◌, some, List, [], ◌∷◌, ◌≡◌, refl, ap, arith}
use serial_broker.Client.TabSlot.{PlacePhase, holding, ended, phase_at, set_at, request_places}

abbrev pub holds : PlacePhase → ℕ
holds holding = 1
holds _ = 0

abbrev pub runs : PlacePhase → ℕ
runs ended = 0
runs _ = 1

abbrev pub held_count : List PlacePhase → ℕ
held_count [] = 0
held_count (p ∷ ps) = holds p + held_count ps

abbrev pub open_count : List PlacePhase → ℕ
open_count [] = 0
open_count (p ∷ ps) = runs p + open_count ps

-- What a place that changes its phase does to the counts.
pub held_count-set_at :
    (k : ℕ) (p q : PlacePhase) (ps : List PlacePhase)
    → phase_at k ps ≡ some p
    → held_count (set_at k q ps) + holds p ≡ held_count ps + holds q
held_count-set_at k p q [] e = cc
held_count-set_at zero p q (r ∷ ps) e = let same : r ≡ p = cc in omega (arith, ap holds same)
held_count-set_at (suc k) p q (r ∷ ps) e = omega (arith, held_count-set_at k p q ps e)

pub open_count-set_at :
    (k : ℕ) (p q : PlacePhase) (ps : List PlacePhase)
    → phase_at k ps ≡ some p
    → open_count (set_at k q ps) + runs p ≡ open_count ps + runs q
open_count-set_at k p q [] e = cc
open_count-set_at zero p q (r ∷ ps) e = let same : r ≡ p = cc in omega (arith, ap runs same)
open_count-set_at (suc k) p q (r ∷ ps) e = omega (arith, open_count-set_at k p q ps e)

pub held_count-request_places : (n : ℕ) → held_count (request_places n) ≡ 0
held_count-request_places zero = refl
held_count-request_places (suc n) = omega (arith, held_count-request_places n)

pub open_count-request_places : (n : ℕ) → open_count (request_places n) ≡ n
open_count-request_places zero = refl
open_count-request_places (suc n) = omega (arith, open_count-request_places n)
