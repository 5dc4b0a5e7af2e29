-- ===== src/Owner/ReceiveBuffer/Deliveries.antt =====
-- The deliveries of src/owner/receive-buffer.ts.
use serial_broker.Prelude.{
  ℕ, ◌+◌, ◌≤◌, ◌<◌, max, Bool, true, false, not, Option, none, some, List, [], ◌∷◌, ◌++◌, ◌||◌,
  ◌==◌, ◌≡◌, refl, ap, ◌∙◌, sym, inl, inr, arith, length, length-append, append_assoc, append-nil,
  All, All-append, leb, if◌then◌else◌, is_some, Bool-cases,
}
use serial_broker.Owner.ReceiveBuffer.{
  ReceiveSettings, ReceiveBuffer, max_receive_delivery_bytes, new, cleared, flush, or_set, appended,
  push, run_idle_timer, run_wait_timer, Call, pushes, idles, waits, flushes, step, run,
}
use serial_broker.Owner.ReceiveBuffer.Joined.{concat, collected_lem}

-- The buffer after `flush`.
abbrev flushed : ReceiveBuffer → ReceiveBuffer
flushed b = if b.byte_length == 0 then cleared b else record (cleared b) {
  chunks = [];
  byte_length = 0;
  deliveries = b.deliveries ++ concat b.chunks ∷ [];
}

flush_lem :
    (b : ReceiveBuffer) → b.byte_length ≡ length (concat b.chunks) → flush b ≡ some (flushed b)
unfolding flush
flush_lem b e = ground (arith, collected_lem b.chunks b refl e)

-- What has been delivered and what is still held, in order.
abbrev pub received : ReceiveBuffer → List ℕ
received b = concat b.deliveries ++ concat b.chunks

concat-append : (cs ds : List (List ℕ)) → concat (cs ++ ds) ≡ concat cs ++ concat ds
concat-append [] ds = refl
concat-append (c ∷ cs) ds = rw (concat-append cs ds) (sym (append_assoc c (concat cs) (concat ds)))

concat-snoc : (cs : List (List ℕ)) (c : List ℕ) → concat (cs ++ c ∷ []) ≡ concat cs ++ c
concat-snoc cs c = concat-append cs (c ∷ []) ∙ ap (λ r. concat cs ++ r) (append-nil c)

received-flushed :
    (b : ReceiveBuffer)
    → b.byte_length ≡ length (concat b.chunks)
    → received (flushed b) ≡ received b
received-flushed b e = elim (Bool-cases (b.byte_length == 0)) [
  | inl nothing ↦ rw nothing refl
  | inr something ↦ rw something (append-nil _ ∙ concat-snoc b.deliveries (concat b.chunks))
]

received-appended : (c : List ℕ) (b : ReceiveBuffer) → received (appended c b) ≡ received b ++ c
received-appended c b =
    ap (λ r. concat b.deliveries ++ r) (concat-snoc b.chunks c)
    ∙ sym (append_assoc (concat b.deliveries) (concat b.chunks) c)

-- A delivery is not empty, and longer than the bound by less than one read of at most `m` bytes.
abbrev pub IsSized : ℕ → List ℕ → Type 0
IsSized m d = (0 < length d) × (length d < max_receive_delivery_bytes + m)

-- What holds of the buffer before a flush.
record Held (m : ℕ) (b : ReceiveBuffer) : Type 0 where
  pub counted : b.byte_length ≡ length (concat b.chunks)
  pub below : b.byte_length < max_receive_delivery_bytes + m
  pub sized : All (IsSized m) b.deliveries

-- What holds between two operations: both timers are set exactly while bytes are held.
pub record Inv (m : ℕ) (b : ReceiveBuffer) : Type 0 where
  pub counted : b.byte_length ≡ length (concat b.chunks)
  pub below : b.byte_length < max_receive_delivery_bytes
  pub idle_iff : is_some b.idle_timer ≡ not (b.byte_length == 0)
  pub wait_iff : is_some b.wait_timer ≡ not (b.byte_length == 0)
  pub sized : All (IsSized m) b.deliveries

new-Inv : (m : ℕ) → Inv m new
new-Inv m = record {
  counted = refl;
  below = ground arith;
  idle_iff = refl;
  wait_iff = refl;
  sized = tt;
}

flushed-Inv : (m : ℕ) (b : ReceiveBuffer) → Held m b → Inv m (flushed b)
flushed-Inv m b h = elim (Bool-cases (b.byte_length == 0)) [
  | inl nothing ↦ rw nothing (record {
    counted = h.counted;
    below = ground (arith, nothing);
    idle_iff = rw nothing refl;
    wait_iff = rw nothing refl;
    sized = h.sized;
  })
  | inr something ↦ rw something (record {
    counted = refl;
    below = ground arith;
    idle_iff = refl;
    wait_iff = refl;
    sized =
        All-append (IsSized m) b.deliveries (concat b.chunks ∷ []) h.sized
          ((ground (arith, h.counted, something), ground (arith, h.counted, h.below)), tt);
  })
]

-- The operation returns, keeps the invariant, and takes in the bytes.
abbrev Returns : ℕ → Option ReceiveBuffer → List ℕ → Type 0
Returns m result bytes =
    (next : ReceiveBuffer) × (result ≡ some next) × Inv m next × (received next ≡ bytes)

flush-Returns : (m : ℕ) (b : ReceiveBuffer) → Held m b → Returns m (flush b) (received b)
flush-Returns m b h =
    (flushed b, flush_lem b h.counted, flushed-Inv m b h, received-flushed b h.counted)

Inv-Held : (m : ℕ) (b : ReceiveBuffer) → Inv m b → Held m b
Inv-Held m b v = record { counted = v.counted; below = ground (arith, v.below); sized = v.sized }

appended-Held :
    (m : ℕ) (c : List ℕ) (b : ReceiveBuffer) → length c ≤ m → Inv m b → Held m (appended c b)
appended-Held m c b short v = record {
  counted =
      ap (λ n. n + length c) v.counted
      ∙ sym (ap length (concat-snoc b.chunks c) ∙ length-append (concat b.chunks) c);
  below = ground (arith, v.below);
  sized = v.sized;
}

module _ (settings : ReceiveSettings) (now x : ℕ) (c : List ℕ) (b : ReceiveBuffer) where
  abbrev is_due : Bool
  is_due = settings.idle_ms == 0 || leb max_receive_delivery_bytes (appended (x ∷ c) b).byte_length

  abbrev timed : ReceiveBuffer
  timed = record (appended (x ∷ c) b) {
    idle_timer = some (now + settings.idle_ms);
    wait_timer = or_set b.wait_timer (now + settings.max_wait_ms);
  }

  push_due : is_due ≡ true → push settings now (x ∷ c) b ≡ flush (appended (x ∷ c) b)
  unfolding push
  push_due due = ground (arith, due)

  push-timed : is_due ≡ false → push settings now (x ∷ c) b ≡ some timed
  unfolding push
  push-timed wait = ground (arith, wait)

  timed-Inv : (m : ℕ) → is_due ≡ false → Held m (appended (x ∷ c) b) → Inv m timed
  timed-Inv m wait h = record {
    counted = h.counted;
    below = ground (arith, wait);
    idle_iff = ground arith;
    wait_iff = ground arith;
    sized = h.sized;
  }

push-Returns :
    (m : ℕ) (settings : ReceiveSettings) (now : ℕ) (c : List ℕ) (b : ReceiveBuffer)
    → length c ≤ m
    → Inv m b
    → Returns m (push settings now c b) (received b ++ c)
unfolding push
push-Returns m settings now [] b short v = (b, refl, v, sym (append-nil (received b)))
push-Returns m settings now (x ∷ c) b short v =
    let held = appended-Held m (x ∷ c) b short v in
    elim (Bool-cases (is_due settings now x c b)) [
      | inl due ↦
          let r = flush-Returns m (appended (x ∷ c) b) held in
          (r.0, push_due settings now x c b due ∙ r.1, r.2, r.3 ∙ received-appended (x ∷ c) b)
      | inr wait ↦ (
        timed settings now x c b,
        push-timed settings now x c b wait,
        timed-Inv settings now x c b m wait held,
        received-appended (x ∷ c) b,
      )
    ]

-- The bytes that a call hands over.
abbrev pub pushed : Call → List ℕ
pushed (pushes now chunk) = chunk
pushed _ = []

abbrev pub all_pushed : List Call → List ℕ
all_pushed [] = []
all_pushed (c ∷ cs) = pushed c ++ all_pushed cs

-- The largest read of a history.
abbrev pub largest_read : List Call → ℕ
largest_read [] = 0
largest_read (c ∷ cs) = max (length (pushed c)) (largest_read cs)

timer-Returns :
    (m : ℕ) (t : Option ℕ) (b : ReceiveBuffer)
    → Inv m b
    → Returns m (if is_some t then flush b else some b) (received b ++ [])
timer-Returns m none b v = (b, refl, v, sym (append-nil (received b)))
timer-Returns m (some t) b v =
    let r = flush-Returns m b (Inv-Held m b v) in
    (r.0, r.1, r.2, r.3 ∙ sym (append-nil (received b)))

step-Returns :
    (m : ℕ) (settings : ReceiveSettings) (c : Call) (b : ReceiveBuffer)
    → length (pushed c) ≤ m
    → Inv m b
    → Returns m (step settings c b) (received b ++ pushed c)
unfolding step run_idle_timer run_wait_timer
step-Returns m settings (pushes now chunk) b short v = push-Returns m settings now chunk b short v
step-Returns m settings idles b short v = timer-Returns m b.idle_timer b v
step-Returns m settings waits b short v = timer-Returns m b.wait_timer b v
step-Returns m settings flushes b short v = timer-Returns m (some 0) b v

run-next :
    (settings : ReceiveSettings) (c : Call) (cs : List Call) (b next : ReceiveBuffer)
    → step settings c b ≡ some next
    → run settings (c ∷ cs) b ≡ run settings cs next
unfolding run
run-next settings c cs b next e = rw (e, run) refl

run-Returns :
    (m : ℕ) (settings : ReceiveSettings) (cs : List Call) (b : ReceiveBuffer)
    → largest_read cs ≤ m
    → Inv m b
    → Returns m (run settings cs b) (received b ++ all_pushed cs)
unfolding run
run-Returns m settings [] b short v = (b, refl, v, sym (append-nil (received b)))
run-Returns m settings (c ∷ cs) b short v =
    let r = step-Returns m settings c b (omega (arith, short)) v in
    let n = run-Returns m settings cs r.0 (omega (arith, short)) r.2 in
    (
      n.0,
      run-next settings c cs b r.0 r.1 ∙ n.1,
      n.2,
      n.3
          ∙ ap (λ bytes. bytes ++ all_pushed cs) r.3
          ∙ append_assoc (received b) (pushed c) (all_pushed cs),
    )

-- No history of reads and timers makes the buffer throw, and what it has delivered followed by what
-- it still holds is what was read, byte by byte and in order: nothing is lost, doubled or moved.
pub run-received :
    (settings : ReceiveSettings) (cs : List Call)
    → (b : ReceiveBuffer) × (run settings cs new ≡ some b)
      × (concat b.deliveries ++ concat b.chunks ≡ all_pushed cs)
run-received settings cs =
    let r =
      run-Returns (largest_read cs) settings cs new (omega arith) (new-Inv (largest_read cs)) in
    (r.0, r.1, r.3)

-- After any history: fewer than `MAX_RECEIVE_DELIVERY_BYTES` bytes are held, and while any is, both
-- timers are set, so that none is stranded; every delivery so far is not empty, and exceeds the
-- maximum by less than the largest read.
pub run-new-Inv :
    (settings : ReceiveSettings) (cs : List Call)
    → (b : ReceiveBuffer) × (run settings cs new ≡ some b) × Inv (largest_read cs) b
run-new-Inv settings cs =
    let r =
      run-Returns (largest_read cs) settings cs new (omega arith) (new-Inv (largest_read cs)) in
    (r.0, r.1, r.2)
