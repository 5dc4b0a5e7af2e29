-- ===== src/Client/TabSlot/Places.antt =====
-- The places and the gate of src/client/tab-slot.ts.
use serial_broker.Prelude.{
  ℕ, ◌-◌, ◌≤◌, Bool, true, false, not, ◌&&◌, ◌||◌, ◌==◌, Option, none, some, List, [], ◌∷◌,
  if◌then◌else◌, ◌≡◌, refl, sym, arith, by_if,
}
use serial_broker.Client.TabSlot.{
  PlacePhase, waiting, holding, returning, ended, GatePhase, outside, competing, left, refused,
  TabSlot, new_slot, phase_at, set_at, request_places, leave_gate, refuse_gate, begin_places,
  take_from, take_place, grant_phase, grant, end_search, settle_one, settle_phase, settle, stop,
  Happening, gate_opens, stops, grants, settles, step, run,
}
use serial_broker.Client.TabSlot.Counts.{
  runs, held_count, open_count, held_count-set_at, open_count-set_at, held_count-request_places,
  open_count-request_places,
}

-- At the gate only with requests under way, without a place, and not stopped.
abbrev pub GateView : GatePhase → Bool → Bool → ℕ → Type 0
GateView competing is_held is_stopped unsettled =
    (is_held ≡ false) × (is_stopped ≡ false) × (1 ≤ unsettled)
GateView _ is_held is_stopped unsettled = Unit

-- No place is held before one was taken.
abbrev pub HeldView : Bool → Bool → ℕ → Type 0
HeldView false false held = held ≡ 0
HeldView _ _ held = held ≤ 1

pub record Inv (s : TabSlot) : Type 0 where
  pub held : HeldView s.is_held s.is_stopped (held_count s.places)
  pub counted : s.unsettled ≡ open_count s.places
  pub gate_view : GateView s.gate s.is_held s.is_stopped s.unsettled

-- After the gate was left.
left-GateView : (g : GatePhase) (a b : Bool) (n : ℕ) → GateView (leave_gate g) a b n
left-GateView outside a b n = tt
left-GateView competing a b n = tt
left-GateView left a b n = tt
left-GateView refused a b n = tt

refused-GateView : (g : GatePhase) (a b : Bool) (n : ℕ) → GateView (refuse_gate g) a b n
refused-GateView outside a b n = tt
refused-GateView competing a b n = tt
refused-GateView left a b n = tt
refused-GateView refused a b n = tt

HeldView-few : (a b : Bool) (n : ℕ) → HeldView a b n → n ≤ 1
HeldView-few false false n h = omega (arith, h)
HeldView-few true b n h = h
HeldView-few false true n h = h

-- Fewer places than before are as good.
HeldView-fewer : (a b : Bool) (n m : ℕ) → m ≤ n → HeldView a b n → HeldView a b m
HeldView-fewer false false n m l h = omega (arith, l, h)
HeldView-fewer true b n m l h = omega (arith, l, h)
HeldView-fewer false true n m l h = omega (arith, l, h)

HeldView-none : (a b : Bool) (n : ℕ) → a || b ≡ false → HeldView a b n → n ≡ 0
HeldView-none false false n e h = h
HeldView-none true b n e h = cc
HeldView-none false true n e h = cc

neither : (a b : Bool) → a || b ≡ false → (a ≡ false) × (b ≡ false)
neither true b h = cc
neither false b h = (refl, h)

begin_if :
    (max_tabs : ℕ) (s : TabSlot)
    → 1 ≤ max_tabs
    → Inv s
    → Inv (if s.is_held || s.is_stopped then s else begin_places max_tabs s)
begin_if max_tabs s some_place v =
    by_if Inv (s.is_held || s.is_stopped) _ _ (λ busy. v)
      (λ free. record {
        held =
            HeldView-fewer s.is_held s.is_stopped (held_count s.places)
              (held_count (request_places max_tabs))
              (omega (arith, held_count-request_places max_tabs)) v.held;
        counted = sym (open_count-request_places max_tabs);
        gate_view = ((neither _ _ free).0, (neither _ _ free).1, some_place);
      })

take_from-Inv :
    (max_tabs : ℕ) (g : GatePhase) (s : TabSlot)
    → 1 ≤ max_tabs
    → Inv s
    → Inv (take_from max_tabs g s)
take_from-Inv max_tabs competing s some_place v = v
take_from-Inv max_tabs outside s some_place v = begin_if max_tabs s some_place v
take_from-Inv max_tabs left s some_place v = begin_if max_tabs s some_place v
take_from-Inv max_tabs refused s some_place v = begin_if max_tabs s some_place v

grant_phase-Inv :
    (k : ℕ) (o : Option PlacePhase) (s : TabSlot)
    → phase_at k s.places ≡ o
    → Inv s
    → Inv (grant_phase k o s)
grant_phase-Inv k none s e v = v
grant_phase-Inv k (some holding) s e v = v
grant_phase-Inv k (some returning) s e v = v
grant_phase-Inv k (some ended) s e v = v
grant_phase-Inv k (some waiting) s e v =
    by_if Inv (s.is_held || s.is_stopped) _ _
      (λ busy. record {
        held =
            HeldView-fewer s.is_held s.is_stopped (held_count s.places)
              (held_count (set_at k returning s.places))
              (omega (arith, held_count-set_at k waiting returning s.places e)) v.held;
        counted = omega (arith, v.counted, open_count-set_at k waiting returning s.places e);
        gate_view = v.gate_view;
      })
      (λ free. record {
        held = omega (
          arith,
          held_count-set_at k waiting holding s.places e,
          HeldView-none s.is_held s.is_stopped (held_count s.places) free v.held,
        );
        counted = omega (arith, v.counted, open_count-set_at k waiting holding s.places e);
        gate_view = left-GateView s.gate true s.is_stopped s.unsettled;
      })

-- The gate, once a request has ended: the last one lets it go.
end_search-Inv :
    (s : TabSlot)
    → HeldView s.is_held s.is_stopped (held_count s.places)
    → s.unsettled ≡ open_count s.places
    → Inv (end_search s)
end_search-Inv s h c =
    by_if Inv (not s.has_failure || s.is_stopped) _ _
      (λ leaves. record {
        held = h;
        counted = c;
        gate_view = left-GateView s.gate s.is_held s.is_stopped s.unsettled;
      })
      (λ refuses. record {
        held = h;
        counted = c;
        gate_view = refused-GateView s.gate s.is_held s.is_stopped s.unsettled;
      })

-- A request that is not the last leaves the gate as it is.
one_less :
    (g : GatePhase) (a b : Bool) (n : ℕ)
    → GateView g a b n
    → (n - 1 == 0) && not a ≡ false
    → GateView g a b (n - 1)
one_less outside a b n v h = tt
one_less left a b n v h = tt
one_less refused a b n v h = tt
one_less competing a b n (away, runs_on, some_left) h =
    (away, runs_on, ground (arith, h, away, some_left))

settle_one-Inv :
    (k : ℕ) (fails : Bool) (p : PlacePhase) (s : TabSlot)
    → phase_at k s.places ≡ some p
    → runs p ≡ 1
    → Inv s
    → Inv (settle_one k fails s)
settle_one-Inv k fails p s e running v =
    let held : HeldView s.is_held s.is_stopped (held_count (set_at k ended s.places)) =
      HeldView-fewer s.is_held s.is_stopped (held_count s.places)
        (held_count (set_at k ended s.places))
        (omega (arith, held_count-set_at k p ended s.places e)) v.held in
    let counted : s.unsettled - 1 ≡ open_count (set_at k ended s.places) =
      omega (arith, v.counted, running, open_count-set_at k p ended s.places e) in
    by_if Inv ((s.unsettled - 1 == 0) && not s.is_held) _ _ (λ last. end_search-Inv _ held counted)
      (λ more. record {
        held = held;
        counted = counted;
        gate_view = one_less s.gate s.is_held s.is_stopped s.unsettled v.gate_view more;
      })

settle_phase-Inv :
    (k : ℕ) (fails : Bool) (o : Option PlacePhase) (s : TabSlot)
    → phase_at k s.places ≡ o
    → Inv s
    → Inv (settle_phase k fails o s)
settle_phase-Inv k fails none s e v = v
settle_phase-Inv k fails (some ended) s e v = v
settle_phase-Inv k fails (some holding) s e v =
    by_if Inv s.is_stopped _ _ (λ over. settle_one-Inv k fails holding s e refl v) (λ kept. v)
settle_phase-Inv k fails (some waiting) s e v = settle_one-Inv k fails waiting s e refl v
settle_phase-Inv k fails (some returning) s e v = settle_one-Inv k fails returning s e refl v

stop-Inv : (s : TabSlot) → Inv s → Inv (stop s)
unfolding stop
stop-Inv s v =
    by_if Inv s.is_stopped _ _ (λ again. v)
      (λ first. record {
        held = HeldView-few s.is_held s.is_stopped (held_count s.places) v.held;
        counted = v.counted;
        gate_view = left-GateView s.gate false true s.unsettled;
      })

run-Inv :
    (max_tabs : ℕ) (hs : List Happening) (s : TabSlot)
    → 1 ≤ max_tabs
    → Inv s
    → Inv (run max_tabs hs s)
unfolding run step take_place grant settle
run-Inv max_tabs [] s some_place v = v
run-Inv max_tabs (gate_opens ∷ hs) s some_place v =
    run-Inv max_tabs hs _ some_place (take_from-Inv max_tabs s.gate s some_place v)
run-Inv max_tabs (stops ∷ hs) s some_place v = run-Inv max_tabs hs _ some_place (stop-Inv s v)
run-Inv max_tabs (grants k ∷ hs) s some_place v =
    run-Inv max_tabs hs _ some_place (grant_phase-Inv k (phase_at k s.places) s refl v)
run-Inv max_tabs (settles k fails ∷ hs) s some_place v =
    run-Inv max_tabs hs _ some_place (settle_phase-Inv k fails (phase_at k s.places) s refl v)

-- With at least one place, and whatever the browser grants, refuses or withdraws, in any order: the tab
-- holds the locks of at most one place, and of none while it counts as having none and is not stopped;
-- the count of requests under way is right; and the tab is at the gate only while it has no place, is
-- not stopped and a request for a place is under way, so that the tabs behind it do not wait for
-- nothing.
pub run-new_slot-Inv :
    (max_tabs : ℕ) (hs : List Happening) → 1 ≤ max_tabs → Inv (run max_tabs hs new_slot)
run-new_slot-Inv max_tabs hs some_place =
    run-Inv max_tabs hs new_slot some_place (record { held = refl; counted = refl; gate_view = tt })
