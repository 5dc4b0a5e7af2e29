-- ===== src/Owner/PortWrite.antt =====
-- src/owner/port-supervisor.ts: one write at the port, from `#write` on. Connections are opaque:
-- numbers. What the browser, the issuer of the write and the timers do is an operation each. `trace`
-- is what the write did, newest first; the code does not read it.
pub mod Told
pub mod Payload
pub mod Gates
pub mod Truth
pub mod Order
pub mod Progress
mod Tests
use serial_broker.Prelude.{
  ℕ, suc, ◌+◌, Bool, true, false, not, ◌&&◌, Option, none, some, List, [], ◌∷◌, ltb, leb,
  if◌then◌else◌, length, subarray, is_value,
}

-- How the promise of a write settles: `failed` and `timed_out` with `bytesWritten`.
pub data Settlement : Type 0 where
  written waited_too_long not_approved not_connected : Settlement
  failed timed_out : ℕ → Settlement

-- Where the job is: in the queue, asking its issuer, with a chunk of that many bytes at the writer of
-- the connection after so many bytes, with a chunk the device did not take in time, or over.
pub data Phase : Type 0 where
  queued asking is_over : Phase
  writing : ℕ → ℕ → ℕ → Phase
  stalled : ℕ → ℕ → Phase

pub data WriteEvent : Type 0 where
  asked approved : WriteEvent
  given : ℕ → List ℕ → WriteEvent
  settled : Settlement → WriteEvent
  lost : ℕ → WriteEvent

pub record Settings : Type 0 where
  pub write_timeout_ms : ℕ
  pub max_write_chunk_bytes : ℕ

-- `connection` is the one that is open.
pub record Write : Type 0 where
  pub payload : List ℕ
  pub queued_at : ℕ
  pub connection : Option ℕ
  pub phase : Phase
  pub bytes_sent : ℕ
  pub trace : List WriteEvent

abbrev pub new_write : List ℕ → ℕ → Option ℕ → Write
new_write payload now connection = record {
  payload = payload;
  queued_at = now;
  connection = connection;
  phase = queued;
  bytes_sent = 0;
  trace = [];
}

abbrev pub end_with : Settlement → Write → Write
end_with s w = record w { phase = is_over; trace = settled s ∷ w.trace }

-- The expiry timer, which the job clears when it is run.
abbrev expire_from : Phase → Write → Write
expire_from queued w = end_with waited_too_long w
expire_from _ w = w

pub expire : Write → Write
expire w = expire_from w.phase w

-- The job up to the answer of the issuer.
abbrev ask : Option ℕ → Write → Write
ask none w = end_with not_connected w
ask (some c) w = record w { phase = asking; trace = asked ∷ w.trace }

abbrev begin_from : Settings → ℕ → Phase → Write → Write
begin_from s now queued w =
    if leb (w.queued_at + s.write_timeout_ms) now
    then end_with waited_too_long w
    else ask w.connection w
begin_from s now _ w = w

pub begin : Settings → ℕ → Write → Write
begin s now w = begin_from s now w.phase w

-- The next chunk, of what is left after that many bytes.
abbrev pub give_chunk : Settings → ℕ → ℕ → Write → Write
give_chunk s c bytes w =
    let chunk : List ℕ = subarray bytes s.max_write_chunk_bytes w.payload in
    record w { phase = writing c bytes (length chunk); trace = given c chunk ∷ w.trace }

abbrev answer_yes : Settings → Option ℕ → Bool → Write → Write
answer_yes s none is_approved w = end_with not_connected w
answer_yes s (some c) false w = end_with not_approved w
answer_yes s (some c) true w = give_chunk s c 0 (record w { trace = approved ∷ w.trace })

-- The answer of the issuer. One that is rejected or late, or that `stop()` does not wait for, is no.
abbrev answer_from : Settings → Bool → Phase → Write → Write
answer_from s is_approved asking w = answer_yes s w.connection is_approved w
answer_from s is_approved _ w = w

pub answer : Settings → Bool → Write → Write
answer s is_approved w = answer_from s is_approved w.phase w

-- `#awaitStalledWrite`: the chunk is taken after all.
abbrev pub take_stalled : ℕ → Write → Write
take_stalled size w = record w { phase = is_over; bytes_sent = w.bytes_sent + size }

-- The device has taken the chunk, in time or after its caller was told that it did not.
abbrev take_from : Settings → Phase → Write → Write
take_from s (writing c bytes size) w =
    let counted : Write = record w { bytes_sent = w.bytes_sent + size } in
    if ltb (bytes + size) (length w.payload)
    then give_chunk s c (bytes + size) counted
    else end_with written counted
take_from s (stalled c size) w = take_stalled size w
take_from s _ w = w

pub take_chunk : Settings → Write → Write
take_chunk s w = take_from s w.phase w

-- A failed write loses the connection that it was written to, if that is still the one that is open.
abbrev pub lose : ℕ → Write → Write
lose c w =
    if is_value w.connection c then record w { connection = none; trace = lost c ∷ w.trace } else w

-- `#awaitStalledWrite`: the chunk is rejected.
abbrev pub reject_stalled : ℕ → Write → Write
reject_stalled c w = lose c (record w { phase = is_over })

abbrev reject_from : Phase → Write → Write
reject_from (writing c bytes size) w = end_with (failed bytes) (lose c w)
reject_from (stalled c size) w = reject_stalled c w
reject_from _ w = w

-- The writer rejects the chunk.
pub reject_chunk : Write → Write
reject_chunk w = reject_from w.phase w

-- The deadline of the chunk: the caller is told, and the chunk stays in flight.
abbrev stall_from : Phase → Write → Write
stall_from (writing c bytes size) w = record w {
  phase = stalled c size;
  trace = settled (timed_out bytes) ∷ w.trace;
}
stall_from _ w = w

pub stall : Write → Write
stall w = stall_from w.phase w

-- `#enterState`: leaving an open connection ends the wait for a chunk that was not taken.
abbrev ended_wait : Option ℕ → Option ℕ → Phase → Phase
ended_wait (some c) next (stalled d size) = if is_value next c then stalled d size else is_over
ended_wait _ next phase = phase

pub change_connection : Option ℕ → Write → Write
change_connection next w = record w {
  connection = next;
  phase = ended_wait w.connection next w.phase;
}

pub data Happening : Type 0 where
  expires takes rejects stalls : Happening
  begins : ℕ → Happening
  answers : Bool → Happening
  changes : Option ℕ → Happening

unfoldable pub step : Settings → Happening → Write → Write
step s expires w = expire w
step s takes w = take_chunk s w
step s rejects w = reject_chunk w
step s stalls w = stall w
step s (begins now) w = begin s now w
step s (answers is_approved) w = answer s is_approved w
step s (changes next) w = change_connection next w

unfoldable pub run : Settings → List Happening → Write → Write
run s [] w = w
run s (h ∷ hs) w = run s hs (step s h w)
