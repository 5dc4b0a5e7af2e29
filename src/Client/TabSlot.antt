-- ===== src/Client/TabSlot.antt =====
-- src/client/tab-slot.ts: `TabSlot`. What the browser does with the lock of a place, and the lock of
-- the gate when it runs `#takePlace`, is an operation each. A place is its position in the list.
pub mod Counts
pub mod Places
mod Tests
use serial_broker.Prelude.{
  ℕ, zero, suc, ◌+◌, ◌-◌, Bool, true, false, not, ◌&&◌, ◌||◌, ◌==◌, Option, none, some, List, [],
  ◌∷◌, if◌then◌else◌,
}

-- The request of the lock of one place: the callback has not run, holds the place, or has returned at
-- once; the promise of the request has settled.
pub data PlacePhase : Type 0 where
  waiting holding returning ended : PlacePhase

-- The promise that the gate is held on.
pub data GatePhase : Type 0 where
  outside competing left refused : GatePhase

pub record TabSlot : Type 0 where
  pub is_stopped : Bool
  pub is_held : Bool
  pub places : List PlacePhase
  pub gate : GatePhase
  pub unsettled : ℕ
  pub has_failure : Bool
  pub acquired : ℕ

abbrev pub new_slot : TabSlot
new_slot = record {
  is_stopped = false;
  is_held = false;
  places = [];
  gate = outside;
  unsettled = 0;
  has_failure = false;
  acquired = 0;
}

abbrev pub phase_at : ℕ → List PlacePhase → Option PlacePhase
phase_at k [] = none
phase_at zero (p ∷ ps) = some p
phase_at (suc k) (p ∷ ps) = phase_at k ps

abbrev pub set_at : ℕ → PlacePhase → List PlacePhase → List PlacePhase
set_at k q [] = []
set_at zero q (p ∷ ps) = q ∷ ps
set_at (suc k) q (p ∷ ps) = p ∷ set_at k q ps

-- `for (let place = 0; place < this.maxTabs; place += 1)`
abbrev pub request_places : ℕ → List PlacePhase
request_places zero = []
request_places (suc n) = waiting ∷ request_places n

-- `leaveGate()` and `refused(…)`: only the first settles the promise.
abbrev pub leave_gate : GatePhase → GatePhase
leave_gate competing = left
leave_gate g = g

abbrev refuse_gate : GatePhase → GatePhase
refuse_gate competing = refused
refuse_gate g = g

abbrev begin_places : ℕ → TabSlot → TabSlot
begin_places max_tabs s = record s {
  places = request_places max_tabs;
  gate = competing;
  unsettled = max_tabs;
  has_failure = false;
}

-- `#takePlace`, which the gate runs while the tab neither has a place nor is stopped, and not twice at
-- once.
abbrev take_from : ℕ → GatePhase → TabSlot → TabSlot
take_from max_tabs competing s = s
take_from max_tabs _ s = if s.is_held || s.is_stopped then s else begin_places max_tabs s

pub take_place : ℕ → TabSlot → TabSlot
take_place max_tabs s = take_from max_tabs s.gate s

-- The browser grants a place: the callback of the request.
abbrev grant_phase : ℕ → Option PlacePhase → TabSlot → TabSlot
grant_phase k (some waiting) s =
    if s.is_held || s.is_stopped
    then record s { places = set_at k returning s.places }
    else record s {
      is_held = true;
      gate = leave_gate s.gate;
      places = set_at k holding s.places;
      acquired = suc s.acquired;
    }
grant_phase k _ s = s

pub grant : ℕ → TabSlot → TabSlot
grant k s = grant_phase k (phase_at k s.places) s

-- The last request has ended without a place.
abbrev pub end_search : TabSlot → TabSlot
end_search s =
    if not s.has_failure || s.is_stopped
    then record s { gate = leave_gate s.gate }
    else record s { gate = refuse_gate s.gate }

-- The promise of the request of a place settles: `.catch(…)` and `.finally(…)`.
abbrev settle_one : ℕ → Bool → TabSlot → TabSlot
settle_one k fails s =
    let counted : TabSlot = record s {
      places = set_at k ended s.places;
      has_failure = s.has_failure || fails;
      unsettled = s.unsettled - 1;
    } in
    if counted.unsettled == 0 && not counted.is_held then end_search counted else counted

-- A place that is held is let go by `stop()` alone.
abbrev settle_phase : ℕ → Bool → Option PlacePhase → TabSlot → TabSlot
settle_phase k fails none s = s
settle_phase k fails (some ended) s = s
settle_phase k fails (some holding) s = if s.is_stopped then settle_one k fails s else s
settle_phase k fails (some p) s = settle_one k fails s

-- The second argument: it was rejected, and not by the abort.
pub settle : ℕ → Bool → TabSlot → TabSlot
settle k fails s = settle_phase k fails (phase_at k s.places) s

-- `stop`
pub stop : TabSlot → TabSlot
stop s =
    if s.is_stopped
    then s
    else record s { is_stopped = true; is_held = false; gate = leave_gate s.gate }

pub data Happening : Type 0 where
  gate_opens stops : Happening
  grants : ℕ → Happening
  settles : ℕ → Bool → Happening

unfoldable pub step : ℕ → Happening → TabSlot → TabSlot
step max_tabs gate_opens s = take_place max_tabs s
step max_tabs stops s = stop s
step max_tabs (grants k) s = grant k s
step max_tabs (settles k fails) s = settle k fails s

unfoldable pub run : ℕ → List Happening → TabSlot → TabSlot
run max_tabs [] s = s
run max_tabs (h ∷ hs) s = run max_tabs hs (step max_tabs h s)
