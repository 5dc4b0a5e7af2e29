-- ===== src/Owner/PortWrite/Tests.antt =====
-- A write of five bytes in chunks of two.
use serial_broker.Prelude.{ℕ, suc, true, some, List, [], ◌∷◌, ◌≡◌, refl, arith, length}
use serial_broker.Owner.PortWrite.{
  timed_out, Settings, Write, new_write, asking, Happening, begins, answers, takes, stalls, run,
  step, begin, answer, take_chunk, stall,
}
use serial_broker.Owner.PortWrite.Told.{settlements, given_bytes, IsToldTruly}
use serial_broker.Owner.PortWrite.Truth.{run-IsToldTruly}
use serial_broker.Owner.PortWrite.Order.{IsSafe, run-new_write-IsSafe}
use serial_broker.Owner.PortWrite.Progress.{HasWritten, takes_times, answers-HasWritten}

abbrev settings : Settings
settings = record { write_timeout_ms = 1000; max_write_chunk_bytes = 2 }

abbrev payload : List ℕ
payload = 1 ∷ 2 ∷ 3 ∷ 4 ∷ 5 ∷ []

-- The second chunk is late, and is taken when its caller has been told.
abbrev happenings : List Happening
happenings = begins 600 ∷ answers true ∷ takes ∷ stalls ∷ takes ∷ []

stalls_at_two :
    settlements (run settings happenings (new_write payload 100 (some 7))).trace ≡ timed_out 2 ∷ []
unfolding run step begin answer take_chunk stall
stalls_at_two = refl

gives_four :
    given_bytes (run settings happenings (new_write payload 100 (some 7))).trace
    ≡ 1 ∷ 2 ∷ 3 ∷ 4 ∷ []
unfolding run step begin answer take_chunk stall
gives_four = refl

run-IsToldTruly_example :
    let w = run settings happenings (new_write payload 100 (some 7)) in
    IsToldTruly 2 (settlements w.trace) (given_bytes w.trace) w.bytes_sent payload
run-IsToldTruly_example = run-IsToldTruly settings happenings payload 100 (some 7)

run-new_write-IsSafe_example :
    IsSafe 2 (run settings happenings (new_write payload 100 (some 7))).trace
run-new_write-IsSafe_example = run-new_write-IsSafe settings happenings payload 100 (some 7)

abbrev asked_one : Write
asked_one = run settings (begins 600 ∷ []) (new_write payload 100 (some 7))

asked_one_asks : asked_one.phase ≡ asking
unfolding run step begin
asked_one_asks = refl

asked_one_open : asked_one.connection ≡ some 7
unfolding run step begin
asked_one_open = refl

answers-HasWritten_example :
    HasWritten
      (settlements asked_one.trace)
      (run settings (answers true ∷ takes_times (suc (length asked_one.payload))) asked_one)
answers-HasWritten_example =
    answers-HasWritten settings asked_one 7 (omega arith) asked_one_asks asked_one_open
