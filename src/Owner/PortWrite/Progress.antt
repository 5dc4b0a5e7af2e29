-- ===== src/Owner/PortWrite/Progress.antt =====
-- The loop over the chunks of a write (src/owner/port-supervisor.ts).
use serial_broker.Prelude.{
  ℕ, zero, suc, ◌+◌, ◌≤◌, true, some, List, [], ◌∷◌, ◌≡◌, refl, sym, ap, subst, arith, ltb, length,
  drop, subarray, by_if, length-take, length-drop,
}
use serial_broker.Owner.PortWrite.{
  Settlement, written, asking, is_over, writing, Settings, Write, answer, answer_from, answer_yes,
  take_chunk, take_from, Happening, takes, answers, step, run,
}
use serial_broker.Owner.PortWrite.Told.{settlements}

-- The device takes a chunk so many times.
abbrev pub takes_times : ℕ → List Happening
takes_times zero = []
takes_times (suc n) = takes ∷ takes_times n

-- The write is over, and its promise has settled with `written`.
abbrev pub HasWritten : List Settlement → Write → Type 0
HasWritten before w = (w.phase ≡ is_over) × (settlements w.trace ≡ written ∷ before)

takes-HasWritten :
    (s : Settings) (n : ℕ) (before : List Settlement) (w : Write)
    → HasWritten before w
    → HasWritten before (run s (takes_times n) w)
unfolding run step take_chunk
takes-HasWritten s zero before w h = h
takes-HasWritten s (suc n) before w h =
    takes-HasWritten s n before (take_from s w.phase w)
      (subst (λ p. HasWritten before (take_from s p w)) (sym h.0) h)

-- The last chunk is at the device.
abbrev AtChunk : ℕ → ℕ → List Settlement → Write → Type 0
AtChunk bytes size before w =
    ((c : ℕ) × (w.phase ≡ writing c bytes size)) × (settlements w.trace ≡ before)

-- One chunk is taken: nothing is left, or the next one has at least a byte.
loop :
    (s : Settings) (n bytes size : ℕ) (before : List Settlement) (w : Write)
    → 1 ≤ s.max_write_chunk_bytes
    → AtChunk bytes size before w
    → length w.payload ≤ n + (bytes + size)
    → HasWritten before (run s (takes_times (suc n)) w)
unfolding run step take_chunk
loop s zero bytes size before w most ((c, e), told) enough =
    subst (λ p. HasWritten before (take_from s p w)) (sym e)
      (by_if (HasWritten before) (ltb (bytes + size) (length w.payload)) _ _
        (λ more. let never : ⊥ = ground (arith, more, enough) in elim never [ ])
        (λ complete. (refl, ap (λ ss. written ∷ ss) told)))
loop s (suc n) bytes size before w most ((c, e), told) enough =
    subst (λ p. HasWritten before (run s (takes_times (suc n)) (take_from s p w))) (sym e)
      (by_if (λ (x : Write). HasWritten before (run s (takes_times (suc n)) x))
        (ltb (bytes + size) (length w.payload)) _ _
        (λ more.
          let chunk = subarray (bytes + size) s.max_write_chunk_bytes w.payload in
          let rest : bytes + size + 1 ≤ length w.payload = ground (arith, more) in
          let some_more : 1 ≤ length chunk = omega (
            arith,
            rest,
            most,
            length-take s.max_write_chunk_bytes (drop (bytes + size) w.payload),
            length-drop (bytes + size) w.payload,
          ) in
          loop s n (bytes + size) (length chunk) before _ most ((c, refl), told)
            (omega (arith, enough, some_more)))
        (λ complete. takes-HasWritten s (suc n) before _ (refl, ap (λ ss. written ∷ ss) told)))

-- A write that is approved with the port open, and whose chunks the device takes, has ended as
-- `written` after at most one chunk for each byte of the payload, and one: the loop does not go on for
-- ever, even where the payload is empty. The size of a chunk is at least one byte.
pub answers-HasWritten :
    (s : Settings) (w : Write) (c : ℕ)
    → 1 ≤ s.max_write_chunk_bytes
    → w.phase ≡ asking
    → w.connection ≡ some c
    → HasWritten
        (settlements w.trace)
        (run s (answers true ∷ takes_times (suc (length w.payload))) w)
unfolding run step answer
answers-HasWritten s w c most asks is_open =
    subst
      (λ p.
        HasWritten (settlements w.trace)
          (run s (takes_times (suc (length w.payload))) (answer_from s true p w)))
      (sym asks)
      (subst
        (λ o.
          HasWritten (settlements w.trace)
            (run s (takes_times (suc (length w.payload))) (answer_yes s o true w)))
        (sym is_open)
        (loop s (length w.payload) 0 _ (settlements w.trace) _ most ((c, refl), refl)
          (omega arith)))
