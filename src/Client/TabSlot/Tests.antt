-- ===== src/Client/TabSlot/Tests.antt =====
-- Two places are granted at once; the tab keeps the first.
use serial_broker.Prelude.{List, [], ◌∷◌, ◌≡◌, refl, arith}
use serial_broker.Client.TabSlot.{
  holding, returning, new_slot, Happening, gate_opens, grants, run, step, take_place, grant,
}
use serial_broker.Client.TabSlot.Places.{Inv, run-new_slot-Inv}

abbrev happenings : List Happening
happenings = gate_opens ∷ grants 1 ∷ grants 0 ∷ []

keeps_first : (run 2 happenings new_slot).places ≡ returning ∷ holding ∷ []
unfolding run step take_place grant
keeps_first = refl

run-new_slot-Inv_example : Inv (run 2 happenings new_slot)
run-new_slot-Inv_example = run-new_slot-Inv 2 happenings (omega arith)
