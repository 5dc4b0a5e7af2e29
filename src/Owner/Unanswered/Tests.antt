-- ===== src/Owner/Unanswered/Tests.antt =====
-- Three writes arrive, one of them too large, and one is answered.
use serial_broker.Prelude.{◌≤◌, List, [], ◌∷◌, ◌≡◌, refl, length, lookup, insert, remove}
use serial_broker.Owner.Unanswered.{
  max_waiting_writes, max_waiting_write_bytes, none_unanswered, Request, arrives, answers, run,
  step,
}
use serial_broker.Owner.Unanswered.Bounds.{total, run-bounded}

abbrev requests : List Request
requests = arrives 10 ∷ arrives 70000000 ∷ arrives 20 ∷ answers 0 ∷ []

keeps_twenty : (run requests none_unanswered).bytes ≡ 20
unfolding run step lookup insert remove
keeps_twenty = refl

run-bounded_example :
    (length (run requests none_unanswered).sizes ≤ max_waiting_writes)
    × ((run requests none_unanswered).bytes ≤ max_waiting_write_bytes)
    × ((run requests none_unanswered).bytes ≡ total (run requests none_unanswered).sizes)
run-bounded_example = run-bounded requests
