-- ===== src/Owner/Unanswered.antt =====
-- src/owner/port-supervisor.ts: the writes handed to the port and not answered, `#unanswered` with
-- `#unansweredBytes`, and what is refused. The promise of a write is a number; `answered` is the
-- reaction to its settling, of the write that it was registered for.
pub mod Bounds
mod Tests
use serial_broker.Prelude.{
  ℕ, suc, ◌+◌, ◌-◌, ◌*◌, Bool, true, false, not, ◌&&◌, List, [], ◌∷◌, ltb, leb, if◌then◌else◌,
  length, Table, lookup, insert, remove, Option, none, some,
}

abbrev pub max_waiting_writes : ℕ
max_waiting_writes = 4096

abbrev pub max_payload_bytes : ℕ
max_payload_bytes = 16 * (1024 * 1024)

abbrev pub max_waiting_write_bytes : ℕ
max_waiting_write_bytes = 4 * max_payload_bytes

pub record Unanswered : Type 0 where
  pub sizes : Table ℕ
  pub next_promise : ℕ
  pub bytes : ℕ

abbrev pub none_unanswered : Unanswered
none_unanswered = record { sizes = []; next_promise = 0; bytes = 0 }

-- `write`
abbrev pub hand : ℕ → Unanswered → Unanswered
hand byte_length u = record {
  sizes = insert u.next_promise byte_length u.sizes;
  next_promise = suc u.next_promise;
  bytes = u.bytes + byte_length;
}

-- `answered`, with the size that the write was handed over with.
abbrev pub settle : ℕ → ℕ → Unanswered → Unanswered
settle id byte_length u = record u { sizes = remove id u.sizes; bytes = u.bytes - byte_length }

-- `refusalOfWrite`: there is one.
abbrev pub is_refused : ℕ → Unanswered → Bool
is_refused byte_length u =
    not (
      ltb (length u.sizes) max_waiting_writes
      && leb (u.bytes + byte_length) max_waiting_write_bytes)

pub data Request : Type 0 where
  arrives : ℕ → Request
  answers : ℕ → Request

-- A write that is not refused is handed over; a promise settles once.
abbrev pub answers_one : ℕ → Option ℕ → Unanswered → Unanswered
answers_one id none u = u
answers_one id (some byte_length) u = settle id byte_length u

unfoldable pub step : Request → Unanswered → Unanswered
step (arrives byte_length) u = if is_refused byte_length u then u else hand byte_length u
step (answers id) u = answers_one id (lookup id u.sizes) u

unfoldable pub run : List Request → Unanswered → Unanswered
run [] u = u
run (r ∷ rs) u = run rs (step r u)
