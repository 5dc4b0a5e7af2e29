-- ===== src/Owner/ReceiveBuffer.antt =====
-- src/owner/receive-buffer.ts: `ReceiveBuffer`, which collects the chunks read from the device into
-- fewer, larger deliveries. A timer that is set is the time it is due at; `run_idle_timer` and
-- `run_wait_timer` are its callbacks. A byte is a number, and `deliveries` what `deliver` was handed,
-- oldest first. An operation that the code would leave by an exception has no result.
pub mod Joined
pub mod Deliveries
mod Tests
use mathlib.Core.Option
use serial_broker.Prelude.{
  ℕ, zero, suc, ◌+◌, Bool, true, false, Option, none, some, List, [], ◌∷◌, ◌++◌, ◌||◌, ◌==◌,
  if◌then◌else◌, leb, length, is_some,
}

abbrev pub max_receive_delivery_bytes : ℕ
max_receive_delivery_bytes = 65536

pub record ReceiveSettings : Type 0 where
  pub idle_ms : ℕ
  pub max_wait_ms : ℕ

pub record ReceiveBuffer : Type 0 where
  pub chunks : List (List ℕ)
  pub byte_length : ℕ
  pub idle_timer : Option ℕ
  pub wait_timer : Option ℕ
  pub deliveries : List (List ℕ)

abbrev pub new : ReceiveBuffer
new = record { chunks = []; byte_length = 0; idle_timer = none; wait_timer = none; deliveries = [] }

-- `new Uint8Array(n)`
abbrev pub zeros : ℕ → List ℕ
zeros zero = []
zeros (suc n) = 0 ∷ zeros n

-- `data.set(chunk, offset)`, which throws if the chunk does not fit.
abbrev pub overwrite : List ℕ → List ℕ → Option (List ℕ)
overwrite bytes [] = some bytes
overwrite [] (c ∷ cs) = none
overwrite (d ∷ bytes) (c ∷ cs) = Option.map (λ rest. c ∷ rest) (overwrite bytes cs)

abbrev pub set_bytes : List ℕ → ℕ → List ℕ → Option (List ℕ)
set_bytes bytes zero chunk = overwrite bytes chunk
set_bytes [] (suc offset) chunk = none
set_bytes (d ∷ bytes) (suc offset) chunk =
    Option.map (λ rest. d ∷ rest) (set_bytes bytes offset chunk)

-- The loop of `#joined`.
abbrev pub join_from : List (List ℕ) → ℕ → List ℕ → Option (List ℕ)
join_from [] offset bytes = some bytes
join_from (chunk ∷ rest) offset bytes = elim (set_bytes bytes offset chunk) [
  | none ↦ none
  | some written ↦ join_from rest (offset + length chunk) written
]

pub joined : ReceiveBuffer → Option (List ℕ)
joined b = join_from b.chunks 0 (zeros b.byte_length)

-- What `flush` delivers: the only chunk there is, or all of them joined.
pub collected : List (List ℕ) → ReceiveBuffer → Option (List ℕ)
unfolding joined
collected (only ∷ []) b = some only
collected _ b = joined b

abbrev cleared : ReceiveBuffer → ReceiveBuffer
cleared b = record b { idle_timer = none; wait_timer = none }

pub flush : ReceiveBuffer → Option ReceiveBuffer
unfolding collected
flush b = if b.byte_length == 0 then some (cleared b) else (elim (collected b.chunks b) [
  | none ↦ none
  | some bytes ↦
      some (record (cleared b) {
        chunks = [];
        byte_length = 0;
        deliveries = b.deliveries ++ bytes ∷ [];
      })
])

-- `??=`
abbrev pub or_set : Option ℕ → ℕ → Option ℕ
or_set none due = some due
or_set (some t) due = some t

-- The chunk of a `push` is in the buffer, and nothing else has happened.
abbrev pub appended : List ℕ → ReceiveBuffer → ReceiveBuffer
appended chunk b = record b {
  chunks = b.chunks ++ chunk ∷ [];
  byte_length = b.byte_length + length chunk;
}

pub push : ReceiveSettings → ℕ → List ℕ → ReceiveBuffer → Option ReceiveBuffer
unfolding flush
push settings now chunk b =
    if length chunk == 0
    then some b
    else let c : ReceiveBuffer = appended chunk b in
      if settings.idle_ms == 0 || leb max_receive_delivery_bytes c.byte_length
      then flush c
      else some (record c {
        idle_timer = some (now + settings.idle_ms);
        wait_timer = or_set c.wait_timer (now + settings.max_wait_ms);
      })

-- The callbacks of the two timers, if they are set.
pub run_idle_timer : ReceiveBuffer → Option ReceiveBuffer
unfolding flush
run_idle_timer b = if is_some b.idle_timer then flush b else some b

pub run_wait_timer : ReceiveBuffer → Option ReceiveBuffer
unfolding flush
run_wait_timer b = if is_some b.wait_timer then flush b else some b

pub data Call : Type 0 where
  pushes : ℕ → List ℕ → Call
  idles waits flushes : Call

pub step : ReceiveSettings → Call → ReceiveBuffer → Option ReceiveBuffer
unfolding push run_idle_timer run_wait_timer flush
step settings (pushes now chunk) b = push settings now chunk b
step settings idles b = run_idle_timer b
step settings waits b = run_wait_timer b
step settings flushes b = flush b

pub run : ReceiveSettings → List Call → ReceiveBuffer → Option ReceiveBuffer
unfolding step
run settings [] b = some b
run settings (c ∷ cs) b = elim (step settings c b) [
  | none ↦ none
  | some next ↦ run settings cs next
]
