-- ===== src/Owner/ReceiveBuffer/Tests.antt =====
-- A history of reads and timers.
use serial_broker.Prelude.{some, List, [], ◌∷◌, ◌++◌, ◌≡◌, refl}
use serial_broker.Owner.ReceiveBuffer.{
  ReceiveSettings, ReceiveBuffer, new, Call, pushes, idles, waits, run,
}
use serial_broker.Owner.ReceiveBuffer.Joined.{concat}
use serial_broker.Owner.ReceiveBuffer.Deliveries.{
  run-received, run-new-Inv, all_pushed, largest_read, Inv,
}

abbrev settings : ReceiveSettings
settings = record { idle_ms = 5; max_wait_ms = 20 }

-- Two reads are delivered as one piece once the line is quiet, and a third is held.
abbrev calls : List Call
calls = pushes 0 (1 ∷ 2 ∷ []) ∷ pushes 3 (3 ∷ []) ∷ idles ∷ waits ∷ pushes 10 (4 ∷ []) ∷ []

delivered :
    run settings calls new
    ≡ some (record {
      chunks = (4 ∷ []) ∷ [];
      byte_length = 1;
      idle_timer = some 15;
      wait_timer = some 30;
      deliveries = (1 ∷ 2 ∷ 3 ∷ []) ∷ [];
    })
unfolding run
delivered = refl

run-received_example :
    (b : ReceiveBuffer) × (run settings calls new ≡ some b)
    × (concat b.deliveries ++ concat b.chunks ≡ all_pushed calls)
run-received_example = run-received settings calls

run-new-Inv_example :
    (b : ReceiveBuffer) × (run settings calls new ≡ some b) × Inv (largest_read calls) b
run-new-Inv_example = run-new-Inv settings calls
