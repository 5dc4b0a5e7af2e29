-- ===== src/Owner/PortWrite/Order.antt =====
-- What comes before a chunk is given to the device (src/owner/port-supervisor.ts).
use serial_broker.Prelude.{
  ℕ, ◌+◌, ◌≤◌, Bool, true, false, not, ◌||◌, Option, none, some, List, [], ◌∷◌, ◌≡◌, ◌==◌, refl,
  sym, ap, subst, arith, ltb, leb, length, drop, subarray, is_value, by_if, length-take,
}
use serial_broker.Owner.PortWrite.{
  failed, Phase, queued, asking, is_over, writing, stalled, WriteEvent, asked, approved, given,
  settled, lost, Settings, Write, new_write, end_with, expire, expire_from, begin, begin_from, ask,
  give_chunk, answer, answer_from, answer_yes, take_chunk, take_from, reject_chunk, reject_from,
  stall, stall_from, ended_wait, change_connection, Happening, expires, takes, rejects, stalls,
  begins, answers, changes, step, run,
}
use serial_broker.Owner.PortWrite.Told.{settlements}

abbrev pub was_approved : List WriteEvent → Bool
was_approved [] = false
was_approved (approved ∷ es) = true
was_approved (asked ∷ es) = was_approved es
was_approved (given c chunk ∷ es) = was_approved es
was_approved (settled s ∷ es) = was_approved es
was_approved (lost c ∷ es) = was_approved es

-- A chunk was given to another connection than this.
abbrev pub gave_other : ℕ → List WriteEvent → Bool
gave_other c [] = false
gave_other c (given d chunk ∷ es) = not (d == c) || gave_other c es
gave_other c (asked ∷ es) = gave_other c es
gave_other c (approved ∷ es) = gave_other c es
gave_other c (settled s ∷ es) = gave_other c es
gave_other c (lost d ∷ es) = gave_other c es

-- A chunk is given once the issuer has approved the write, before its promise settles, to the
-- connection of the chunks before it, and is no larger than the most there may be; the issuer is not
-- asked again, nor approves again.
abbrev pub IsAllowed : ℕ → WriteEvent → List WriteEvent → Type 0
IsAllowed most (given c chunk) es =
    (was_approved es ≡ true)
    × (settlements es ≡ [])
    × (gave_other c es ≡ false)
    × (length chunk ≤ most)
IsAllowed most asked es = es ≡ []
IsAllowed most approved es = es ≡ asked ∷ []
IsAllowed most (settled s) es = settlements es ≡ []
IsAllowed most (lost c) es = was_approved es ≡ true

abbrev pub IsSafe : ℕ → List WriteEvent → Type 0
IsSafe most [] = Unit
IsSafe most (e ∷ es) = IsAllowed most e es × IsSafe most es

-- What the phase says of the history.
abbrev View : Phase → List WriteEvent → Type 0
View queued es = es ≡ []
View asking es = es ≡ asked ∷ []
View is_over es = Unit
View (writing c n size) es =
    (was_approved es ≡ true) × (settlements es ≡ []) × (gave_other c es ≡ false)
View (stalled c size) es = was_approved es ≡ true

abbrev Holds : ℕ → Write → Type 0
Holds most w = View w.phase w.trace × IsSafe most w.trace

abbrev IsAt : ℕ → Phase → Write → Type 0
IsAt most phase w = View phase w.trace × IsSafe most w.trace

expire_from-Holds :
    (most : ℕ) (phase : Phase) (w : Write)
    → w.phase ≡ phase
    → IsAt most phase w
    → Holds most (expire_from phase w)
expire_from-Holds most queued w e (v, safe) = (tt, (ap settlements v, safe))
expire_from-Holds most asking w e h = subst (λ p. IsAt most p w) (sym e) h
expire_from-Holds most is_over w e h = subst (λ p. IsAt most p w) (sym e) h
expire_from-Holds most (writing c n size) w e h = subst (λ p. IsAt most p w) (sym e) h
expire_from-Holds most (stalled c size) w e h = subst (λ p. IsAt most p w) (sym e) h

ask-Holds : (most : ℕ) (o : Option ℕ) (w : Write) → IsAt most queued w → Holds most (ask o w)
ask-Holds most none w (v, safe) = (tt, (ap settlements v, safe))
ask-Holds most (some c) w (v, safe) = (ap (λ es. asked ∷ es) v, (v, safe))

begin_from-Holds :
    (most : ℕ) (s : Settings) (now : ℕ) (phase : Phase) (w : Write)
    → w.phase ≡ phase
    → IsAt most phase w
    → Holds most (begin_from s now phase w)
begin_from-Holds most s now queued w e (v, safe) =
    by_if (Holds most) (leb (w.queued_at + s.write_timeout_ms) now) _ _
      (λ late. (tt, (ap settlements v, safe))) (λ in_time. ask-Holds most w.connection w (v, safe))
begin_from-Holds most s now asking w e h = subst (λ p. IsAt most p w) (sym e) h
begin_from-Holds most s now is_over w e h = subst (λ p. IsAt most p w) (sym e) h
begin_from-Holds most s now (writing c n size) w e h = subst (λ p. IsAt most p w) (sym e) h
begin_from-Holds most s now (stalled c size) w e h = subst (λ p. IsAt most p w) (sym e) h

give_chunk-Holds :
    (s : Settings) (c n : ℕ) (w : Write)
    → was_approved w.trace ≡ true
    → settlements w.trace ≡ []
    → gave_other c w.trace ≡ false
    → IsSafe s.max_write_chunk_bytes w.trace
    → Holds s.max_write_chunk_bytes (give_chunk s c n w)
give_chunk-Holds s c n w begun none_settled same safe =
    let most = s.max_write_chunk_bytes in
    let short : length (subarray n most w.payload) ≤ most =
      omega (arith, length-take most (drop n w.payload)) in
    let still : not (c == c) || gave_other c w.trace ≡ false = ground (arith, same) in
    ((begun, none_settled, still), ((begun, none_settled, same, short), safe))

answer_yes-Holds :
    (s : Settings) (o : Option ℕ) (b : Bool) (w : Write)
    → IsAt s.max_write_chunk_bytes asking w
    → Holds s.max_write_chunk_bytes (answer_yes s o b w)
answer_yes-Holds s none b w (v, safe) = (tt, (ap settlements v, safe))
answer_yes-Holds s (some c) false w (v, safe) = (tt, (ap settlements v, safe))
answer_yes-Holds s (some c) true w (v, safe) =
    give_chunk-Holds s c 0 (record w { trace = approved ∷ w.trace }) refl (ap settlements v)
      (ap (gave_other c) v) (v, safe)

answer_from-Holds :
    (s : Settings) (b : Bool) (phase : Phase) (w : Write)
    → w.phase ≡ phase
    → IsAt s.max_write_chunk_bytes phase w
    → Holds s.max_write_chunk_bytes (answer_from s b phase w)
answer_from-Holds s b asking w e h = answer_yes-Holds s w.connection b w h
answer_from-Holds s b queued w e h = subst (λ p. IsAt s.max_write_chunk_bytes p w) (sym e) h
answer_from-Holds s b is_over w e h = subst (λ p. IsAt s.max_write_chunk_bytes p w) (sym e) h
answer_from-Holds s b (writing c n size) w e h =
    subst (λ p. IsAt s.max_write_chunk_bytes p w) (sym e) h
answer_from-Holds s b (stalled c size) w e h =
    subst (λ p. IsAt s.max_write_chunk_bytes p w) (sym e) h

take_from-Holds :
    (s : Settings) (phase : Phase) (w : Write)
    → w.phase ≡ phase
    → IsAt s.max_write_chunk_bytes phase w
    → Holds s.max_write_chunk_bytes (take_from s phase w)
take_from-Holds s (writing c n size) w e ((begun, none_settled, same), safe) =
    by_if (Holds s.max_write_chunk_bytes) (ltb (n + size) (length w.payload)) _ _
      (λ more.
        give_chunk-Holds s c (n + size) (record w { bytes_sent = w.bytes_sent + size }) begun
          none_settled same safe)
      (λ complete. (tt, (none_settled, safe)))
take_from-Holds s (stalled c size) w e (v, safe) = (tt, safe)
take_from-Holds s queued w e h = subst (λ p. IsAt s.max_write_chunk_bytes p w) (sym e) h
take_from-Holds s asking w e h = subst (λ p. IsAt s.max_write_chunk_bytes p w) (sym e) h
take_from-Holds s is_over w e h = subst (λ p. IsAt s.max_write_chunk_bytes p w) (sym e) h

reject_from-Holds :
    (most : ℕ) (phase : Phase) (w : Write)
    → w.phase ≡ phase
    → IsAt most phase w
    → Holds most (reject_from phase w)
reject_from-Holds most (writing c n size) w e ((begun, none_settled, same), safe) =
    by_if (λ (x : Write). Holds most (end_with (failed n) x)) (is_value w.connection c) _ _
      (λ current. (tt, (none_settled, (begun, safe)))) (λ other. (tt, (none_settled, safe)))
reject_from-Holds most (stalled c size) w e (begun, safe) =
    by_if (Holds most) (is_value w.connection c) _ _ (λ current. (tt, (begun, safe)))
      (λ other. (tt, safe))
reject_from-Holds most queued w e h = subst (λ p. IsAt most p w) (sym e) h
reject_from-Holds most asking w e h = subst (λ p. IsAt most p w) (sym e) h
reject_from-Holds most is_over w e h = subst (λ p. IsAt most p w) (sym e) h

stall_from-Holds :
    (most : ℕ) (phase : Phase) (w : Write)
    → w.phase ≡ phase
    → IsAt most phase w
    → Holds most (stall_from phase w)
stall_from-Holds most (writing c n size) w e ((begun, none_settled, same), safe) =
    (begun, (none_settled, safe))
stall_from-Holds most queued w e h = subst (λ p. IsAt most p w) (sym e) h
stall_from-Holds most asking w e h = subst (λ p. IsAt most p w) (sym e) h
stall_from-Holds most is_over w e h = subst (λ p. IsAt most p w) (sym e) h
stall_from-Holds most (stalled c size) w e h = subst (λ p. IsAt most p w) (sym e) h

ended_wait-View :
    (o next : Option ℕ) (phase : Phase) (es : List WriteEvent)
    → View phase es
    → View (ended_wait o next phase) es
ended_wait-View (some d) next (stalled c size) es v =
    by_if (λ (p : Phase). View p es) (is_value next d) _ _ (λ same. v) (λ left. tt)
ended_wait-View none next (stalled c size) es v = v
ended_wait-View none next queued es v = v
ended_wait-View none next asking es v = v
ended_wait-View none next is_over es v = v
ended_wait-View none next (writing c n size) es v = v
ended_wait-View (some d) next queued es v = v
ended_wait-View (some d) next asking es v = v
ended_wait-View (some d) next is_over es v = v
ended_wait-View (some d) next (writing c n size) es v = v

step-Holds :
    (s : Settings) (h : Happening) (w : Write)
    → Holds s.max_write_chunk_bytes w
    → Holds s.max_write_chunk_bytes (step s h w)
unfolding step expire begin answer take_chunk reject_chunk stall change_connection
step-Holds s expires w v = expire_from-Holds s.max_write_chunk_bytes w.phase w refl v
step-Holds s takes w v = take_from-Holds s w.phase w refl v
step-Holds s rejects w v = reject_from-Holds s.max_write_chunk_bytes w.phase w refl v
step-Holds s stalls w v = stall_from-Holds s.max_write_chunk_bytes w.phase w refl v
step-Holds s (begins now) w v = begin_from-Holds s.max_write_chunk_bytes s now w.phase w refl v
step-Holds s (answers b) w v = answer_from-Holds s b w.phase w refl v
step-Holds s (changes next) w v = (ended_wait-View w.connection next w.phase w.trace v.0, v.1)

run-Holds :
    (s : Settings) (hs : List Happening) (w : Write)
    → Holds s.max_write_chunk_bytes w
    → Holds s.max_write_chunk_bytes (run s hs w)
unfolding run
run-Holds s [] w v = v
run-Holds s (h ∷ hs) w v = run-Holds s hs (step s h w) (step-Holds s h w v)

-- Whatever happens and in whatever order: a chunk is given to the device only after the issuer was
-- asked and approved, before the promise settles, all chunks to the same connection, and none is larger
-- than `maxWriteChunkBytes`; the issuer is asked and approves at most once, and the write takes a
-- connection down only after it was approved.
pub run-new_write-IsSafe :
    (s : Settings) (hs : List Happening) (payload : List ℕ) (now : ℕ) (connection : Option ℕ)
    → IsSafe s.max_write_chunk_bytes (run s hs (new_write payload now connection)).trace
run-new_write-IsSafe s hs payload now connection =
    (run-Holds s hs (new_write payload now connection) (refl, tt)).1
