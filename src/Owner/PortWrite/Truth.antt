-- ===== src/Owner/PortWrite/Truth.antt =====
-- What the promise of a write (src/owner/port-supervisor.ts) says, in any history.
use serial_broker.Prelude.{
  ℕ, ◌+◌, ◌≤◌, false, Option, none, some, List, [], ◌∷◌, ◌≡◌, refl, sym, ◌∙◌, ap, subst, arith, ltb,
  length, take, is_value, by_if, take_all,
}
use serial_broker.Owner.PortWrite.{
  Settlement, written, failed, timed_out, Phase, queued, asking, is_over, writing, stalled,
  Settings, Write, new_write, end_with, expire, begin, answer, take_chunk, take_from, lose,
  reject_chunk, reject_from, stall, stall_from, ended_wait, change_connection, Happening, expires,
  takes, rejects, stalls, begins, answers, changes, step, run,
}
use serial_broker.Owner.PortWrite.Told.{
  given_bytes, settlements, IsToldTruly, View, IsAt, Holds, IsAt-phase,
}
use serial_broker.Owner.PortWrite.Payload.{run-Keeps}
use serial_broker.Owner.PortWrite.Gates.{
  expire_from-Holds, begin_from-Holds, give_chunk-Holds, answer_from-Holds,
}

-- A chunk that was given ends at the end of the payload, or before it.
up_to_end :
    (n size : ℕ) (bytes payload : List ℕ)
    → bytes ≡ take (n + size) payload
    → ltb (n + size) (length payload) ≡ false
    → bytes ≡ payload
up_to_end n size bytes payload e h =
    let all : length payload ≤ n + size = ground (arith, h) in e ∙ take_all (n + size) payload all

abbrev Wrote : ℕ → ℕ → ℕ → Write → Type 0
Wrote most n size w =
    (settlements w.trace ≡ [])
    × (given_bytes w.trace ≡ take (n + size) w.payload)
    × (w.bytes_sent ≡ n)
    × (size ≤ most)
    × (n + size ≤ length w.payload)

take_from-writing :
    (s : Settings) (c n size : ℕ) (w : Write)
    → Wrote s.max_write_chunk_bytes n size w
    → Holds s.max_write_chunk_bytes (take_from s (writing c n size) w)
take_from-writing s c n size w (none_settled, so_far, sent, short, inside) =
    let counted : w.bytes_sent + size ≡ n + size = ap (λ k. k + size) sent in
    by_if (Holds s.max_write_chunk_bytes) (ltb (n + size) (length w.payload)) _ _
      (λ more.
        give_chunk-Holds s c (n + size) (record w { bytes_sent = w.bytes_sent + size }) none_settled
          so_far counted inside)
      (λ complete. (
        written,
        ap (λ ss. written ∷ ss) none_settled,
        (
          up_to_end n size (given_bytes w.trace) w.payload so_far complete,
          ground (arith, counted, complete, inside),
        ),
      ))

-- A chunk that its caller was told of may be taken later.
take_from-stalled :
    (most c size : ℕ) (s : Settings) (w : Write)
    → IsAt most (stalled c size) w
    → Holds most (take_from s (stalled c size) w)
take_from-stalled most c size s w (n, told, so_far, sent, short, inside) =
    (timed_out n, told, (omega (arith, sent), (size, short, so_far)))

take_from-Holds :
    (s : Settings) (phase : Phase) (w : Write)
    → w.phase ≡ phase
    → Holds s.max_write_chunk_bytes w
    → Holds s.max_write_chunk_bytes (take_from s phase w)
take_from-Holds s (writing c n size) w e h =
    take_from-writing s c n size w (IsAt-phase s.max_write_chunk_bytes _ w e h)
take_from-Holds s (stalled c size) w e h =
    take_from-stalled s.max_write_chunk_bytes c size s w
      (IsAt-phase s.max_write_chunk_bytes _ w e h)
take_from-Holds s queued w e h = h
take_from-Holds s asking w e h = h
take_from-Holds s is_over w e h = h

-- Losing the connection is neither a settlement nor a write.
lose-View :
    (most c : ℕ) (phase : Phase) (w : Write) → IsAt most phase w → IsAt most phase (lose c w)
lose-View most c phase w v =
    by_if (λ (x : Write). IsAt most phase x) (is_value w.connection c) _ _ (λ same. v) (λ other. v)

failed-Holds :
    (most c n size : ℕ) (w : Write)
    → IsAt most (writing c n size) w
    → Holds most (end_with (failed n) w)
failed-Holds most c n size w (none_settled, so_far, sent, short, inside) =
    (failed n, ap (λ ss. failed n ∷ ss) none_settled, (sent, (size, short, so_far)))

over_stalled : (most c size : ℕ) (w : Write) → IsAt most (stalled c size) w → IsAt most is_over w
over_stalled most c size w (n, told, so_far, sent, short, inside) =
    (timed_out n, told, (omega (arith, sent), (size, short, so_far)))

reject_from-Holds :
    (most : ℕ) (phase : Phase) (w : Write)
    → w.phase ≡ phase
    → Holds most w
    → Holds most (reject_from phase w)
reject_from-Holds most (writing c n size) w e h =
    failed-Holds most c n size (lose c w)
      (lose-View most c (writing c n size) w (IsAt-phase most _ w e h))
reject_from-Holds most (stalled c size) w e h =
    let over : IsAt most is_over w =
      over_stalled most c size w (IsAt-phase most (stalled c size) w e h) in
    by_if (Holds most) (is_value w.connection c) _ _ (λ same. over) (λ other. over)
reject_from-Holds most queued w e h = h
reject_from-Holds most asking w e h = h
reject_from-Holds most is_over w e h = h

stall_from-Holds :
    (most : ℕ) (phase : Phase) (w : Write)
    → w.phase ≡ phase
    → Holds most w
    → Holds most (stall_from phase w)
stall_from-Holds most (writing c n size) w e h =
    let v = IsAt-phase most _ w e h in (n, ap (λ ss. timed_out n ∷ ss) v.0, v.1, v.2, v.3, v.4)
stall_from-Holds most queued w e h = h
stall_from-Holds most asking w e h = h
stall_from-Holds most is_over w e h = h
stall_from-Holds most (stalled c size) w e h = h

ended_wait-View :
    (most : ℕ) (o next : Option ℕ) (phase : Phase) (w : Write)
    → IsAt most phase w
    → IsAt most (ended_wait o next phase) w
ended_wait-View most (some d) next (stalled c size) w v =
    by_if (λ (p : Phase). IsAt most p w) (is_value next d) _ _ (λ same. v)
      (λ left. over_stalled most c size w v)
ended_wait-View most none next (stalled c size) w v = v
ended_wait-View most none next queued w v = v
ended_wait-View most none next asking w v = v
ended_wait-View most none next is_over w v = v
ended_wait-View most none next (writing c n size) w v = v
ended_wait-View most (some d) next queued w v = v
ended_wait-View most (some d) next asking w v = v
ended_wait-View most (some d) next is_over w v = v
ended_wait-View most (some d) next (writing c n size) w v = v

step-Holds :
    (s : Settings) (h : Happening) (w : Write)
    → Holds s.max_write_chunk_bytes w
    → Holds s.max_write_chunk_bytes (step s h w)
unfolding step expire begin answer take_chunk reject_chunk stall change_connection
step-Holds s expires w v = expire_from-Holds s.max_write_chunk_bytes w.phase w refl v
step-Holds s takes w v = take_from-Holds s w.phase w refl v
step-Holds s rejects w v = reject_from-Holds s.max_write_chunk_bytes w.phase w refl v
step-Holds s stalls w v = stall_from-Holds s.max_write_chunk_bytes w.phase w refl v
step-Holds s (begins now) w v = begin_from-Holds s.max_write_chunk_bytes s now w.phase w refl v
step-Holds s (answers b) w v = answer_from-Holds s b w.phase w refl v
step-Holds s (changes next) w v =
    ended_wait-View s.max_write_chunk_bytes w.connection next w.phase w v

run-Holds :
    (s : Settings) (hs : List Happening) (w : Write)
    → Holds s.max_write_chunk_bytes w
    → Holds s.max_write_chunk_bytes (run s hs w)
unfolding run
run-Holds s [] w v = v
run-Holds s (h ∷ hs) w v = run-Holds s hs (step s h w) (step-Holds s h w v)

View-IsToldTruly :
    (most : ℕ) (phase : Phase) (ss : List Settlement) (bytes : List ℕ) (sent : ℕ) (payload : List ℕ)
    → View most phase ss bytes sent payload
    → IsToldTruly most ss bytes sent payload
View-IsToldTruly most queued ss bytes sent payload v =
    subst (λ x. IsToldTruly most x bytes sent payload) (sym v.0) tt
View-IsToldTruly most asking ss bytes sent payload v =
    subst (λ x. IsToldTruly most x bytes sent payload) (sym v.0) tt
View-IsToldTruly most (writing c n size) ss bytes sent payload v =
    subst (λ x. IsToldTruly most x bytes sent payload) (sym v.0) tt
View-IsToldTruly most is_over ss bytes sent payload (s, told, truly) =
    subst (λ x. IsToldTruly most x bytes sent payload) (sym told) truly
View-IsToldTruly most (stalled c size) ss bytes sent payload
      (n, told, so_far, same, short, inside) =
    subst (λ x. IsToldTruly most x bytes sent payload) (sym told)
      (omega (arith, same), (size, short, so_far))

-- Whatever happens and in whatever order, the promise of a write settles at most once, and what it
-- settled with stays true: `written` says that the device was given and took exactly the payload;
-- that it waited too long, was not approved or found no connection says that the device was given
-- nothing; a failure or a timeout after `bytesWritten` bytes says that the device took these (a timeout:
-- at least these), and was given the payload up to there and at most one chunk more.
pub run-IsToldTruly :
    (s : Settings) (hs : List Happening) (payload : List ℕ) (now : ℕ) (connection : Option ℕ)
    → let w = run s hs (new_write payload now connection) in
      IsToldTruly s.max_write_chunk_bytes
        (settlements w.trace)
        (given_bytes w.trace)
        w.bytes_sent
        payload
run-IsToldTruly s hs payload now connection =
    let w = run s hs (new_write payload now connection) in
    let v = run-Holds s hs (new_write payload now connection) (refl, refl, refl) in
    subst
      (λ p.
        IsToldTruly s.max_write_chunk_bytes (settlements w.trace) (given_bytes w.trace) w.bytes_sent
          p)
      (run-Keeps s hs (new_write payload now connection))
      (View-IsToldTruly s.max_write_chunk_bytes w.phase _ _ _ w.payload v)
