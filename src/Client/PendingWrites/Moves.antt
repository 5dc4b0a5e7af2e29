-- ===== src/Client/PendingWrites/Moves.antt =====
-- What becomes of each write when a term ends: `handleTermEnded` of src/client/pending-writes.ts
-- against the history.
use serial_broker.Prelude.{ℕ, true, Option, none, some}
use mathlib.Core.Option
use serial_broker.Client.PendingWrites.{PendingWrite}

-- What becomes of a write that was with the ended term, where the port is open in term `t`.
abbrev pub fate_of : ℕ → PendingWrite → Option ℕ → Option PendingWrite
fate_of t p none = some (record p { is_dispatched = true; addressed_term = some t })
fate_of t p (some u) = none
