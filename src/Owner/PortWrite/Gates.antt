-- ===== src/Owner/PortWrite/Gates.antt =====
-- A write (src/owner/port-supervisor.ts) until it is over, while chunks are given.
use serial_broker.Prelude.{
  ℕ, ◌+◌, ◌≤◌, Bool, true, false, Option, none, some, [], ◌∷◌, ◌++◌, ◌≡◌, sym, ◌∙◌, ap, arith, leb,
  length, take, drop, subarray, by_if, take-append, take-length, length-take, length-drop,
}
use serial_broker.Owner.PortWrite.{
  waited_too_long, not_approved, not_connected, Phase, queued, asking, is_over, writing, stalled,
  approved, Settings, Write, expire_from, begin_from, ask, give_chunk, answer_from, answer_yes,
}
use serial_broker.Owner.PortWrite.Told.{given_bytes, settlements, Holds, IsAt-phase}

-- The write has not begun.
abbrev NotBegun : Write → Type 0
NotBegun w = (settlements w.trace ≡ []) × (given_bytes w.trace ≡ []) × (w.bytes_sent ≡ 0)

pub expire_from-Holds :
    (most : ℕ) (phase : Phase) (w : Write)
    → w.phase ≡ phase
    → Holds most w
    → Holds most (expire_from phase w)
expire_from-Holds most queued w e h =
    let v = IsAt-phase most _ w e h in
    (waited_too_long, ap (λ ss. waited_too_long ∷ ss) v.0, (v.1, v.2))
expire_from-Holds most asking w e h = h
expire_from-Holds most is_over w e h = h
expire_from-Holds most (writing c n size) w e h = h
expire_from-Holds most (stalled c size) w e h = h

ask-Holds : (most : ℕ) (o : Option ℕ) (w : Write) → NotBegun w → Holds most (ask o w)
ask-Holds most none w v = (not_connected, ap (λ ss. not_connected ∷ ss) v.0, (v.1, v.2))
ask-Holds most (some c) w v = v

pub begin_from-Holds :
    (most : ℕ) (s : Settings) (now : ℕ) (phase : Phase) (w : Write)
    → w.phase ≡ phase
    → Holds most w
    → Holds most (begin_from s now phase w)
begin_from-Holds most s now queued w e h =
    let v = IsAt-phase most _ w e h in
    by_if (Holds most) (leb (w.queued_at + s.write_timeout_ms) now) _ _
      (λ late. (waited_too_long, ap (λ ss. waited_too_long ∷ ss) v.0, (v.1, v.2)))
      (λ in_time. ask-Holds most w.connection w v)
begin_from-Holds most s now asking w e h = h
begin_from-Holds most s now is_over w e h = h
begin_from-Holds most s now (writing c n size) w e h = h
begin_from-Holds most s now (stalled c size) w e h = h

-- The bytes given so far and the next chunk.
pub give_chunk-Holds :
    (s : Settings) (c n : ℕ) (w : Write)
    → settlements w.trace ≡ []
    → given_bytes w.trace ≡ take n w.payload
    → w.bytes_sent ≡ n
    → n ≤ length w.payload
    → Holds s.max_write_chunk_bytes (give_chunk s c n w)
give_chunk-Holds s c n w none_settled so_far sent inside =
    let most = s.max_write_chunk_bytes in
    let chunk = subarray n most w.payload in
    let short : length chunk ≤ most = omega (arith, length-take most (drop n w.payload)) in
    let same : subarray n (length chunk) w.payload ≡ chunk = take-length most (drop n w.payload) in
    (
      none_settled,
      ap (λ xs. xs ++ chunk) so_far
          ∙ (ap (λ xs. take n w.payload ++ xs) (sym same) ∙ take-append n (length chunk) w.payload),
      sent,
      short,
      omega (arith, inside, length-take most (drop n w.payload), length-drop n w.payload),
    )

answer_yes-Holds :
    (s : Settings) (o : Option ℕ) (b : Bool) (w : Write)
    → NotBegun w
    → Holds s.max_write_chunk_bytes (answer_yes s o b w)
answer_yes-Holds s none b w v = (not_connected, ap (λ ss. not_connected ∷ ss) v.0, (v.1, v.2))
answer_yes-Holds s (some c) false w v = (not_approved, ap (λ ss. not_approved ∷ ss) v.0, (v.1, v.2))
answer_yes-Holds s (some c) true w v =
    give_chunk-Holds s c 0 (record w { trace = approved ∷ w.trace }) v.0 v.1 v.2 (omega arith)

pub answer_from-Holds :
    (s : Settings) (b : Bool) (phase : Phase) (w : Write)
    → w.phase ≡ phase
    → Holds s.max_write_chunk_bytes w
    → Holds s.max_write_chunk_bytes (answer_from s b phase w)
answer_from-Holds s b asking w e h =
    answer_yes-Holds s w.connection b w (IsAt-phase s.max_write_chunk_bytes _ w e h)
answer_from-Holds s b queued w e h = h
answer_from-Holds s b is_over w e h = h
answer_from-Holds s b (writing c n size) w e h = h
answer_from-Holds s b (stalled c size) w e h = h
