-- ===== src/Owner/PortWrite/Payload.antt =====
-- The payload of a write (src/owner/port-supervisor.ts).
use serial_broker.Prelude.{
  ℕ, ◌+◌, Bool, true, false, Option, none, some, List, [], ◌∷◌, ◌≡◌, refl, ◌∙◌, ltb, leb, length,
  is_value, by_if,
}
use serial_broker.Owner.PortWrite.{
  Phase, queued, asking, is_over, writing, stalled, Settings, Write, expire, expire_from, begin,
  begin_from, ask, answer, answer_from, answer_yes, take_chunk, take_from, lose, reject_chunk,
  reject_from, stall, stall_from, change_connection, Happening, expires, takes, rejects, stalls,
  begins, answers, changes, step, run,
}

-- The payload stays as it is.
abbrev pub Keeps : Write → Write → Type 0
Keeps w x = x.payload ≡ w.payload

lose-Keeps : (c : ℕ) (w : Write) → Keeps w (lose c w)
lose-Keeps c w = by_if (Keeps w) (is_value w.connection c) _ _ (λ same. refl) (λ other. refl)

expire_from-Keeps : (phase : Phase) (w : Write) → Keeps w (expire_from phase w)
expire_from-Keeps queued w = refl
expire_from-Keeps asking w = refl
expire_from-Keeps is_over w = refl
expire_from-Keeps (writing c n size) w = refl
expire_from-Keeps (stalled c size) w = refl

ask-Keeps : (o : Option ℕ) (w : Write) → Keeps w (ask o w)
ask-Keeps none w = refl
ask-Keeps (some c) w = refl

begin_from-Keeps :
    (s : Settings) (now : ℕ) (phase : Phase) (w : Write) → Keeps w (begin_from s now phase w)
begin_from-Keeps s now queued w =
    by_if (Keeps w) (leb (w.queued_at + s.write_timeout_ms) now) _ _ (λ late. refl)
      (λ in_time. ask-Keeps w.connection w)
begin_from-Keeps s now asking w = refl
begin_from-Keeps s now is_over w = refl
begin_from-Keeps s now (writing c n size) w = refl
begin_from-Keeps s now (stalled c size) w = refl

answer_yes-Keeps :
    (s : Settings) (o : Option ℕ) (b : Bool) (w : Write) → Keeps w (answer_yes s o b w)
answer_yes-Keeps s none b w = refl
answer_yes-Keeps s (some c) false w = refl
answer_yes-Keeps s (some c) true w = refl

answer_from-Keeps :
    (s : Settings) (b : Bool) (phase : Phase) (w : Write) → Keeps w (answer_from s b phase w)
answer_from-Keeps s b asking w = answer_yes-Keeps s w.connection b w
answer_from-Keeps s b queued w = refl
answer_from-Keeps s b is_over w = refl
answer_from-Keeps s b (writing c n size) w = refl
answer_from-Keeps s b (stalled c size) w = refl

take_from-Keeps : (s : Settings) (phase : Phase) (w : Write) → Keeps w (take_from s phase w)
take_from-Keeps s (writing c n size) w =
    by_if (Keeps w) (ltb (n + size) (length w.payload)) _ _ (λ more. refl) (λ complete. refl)
take_from-Keeps s (stalled c size) w = refl
take_from-Keeps s queued w = refl
take_from-Keeps s asking w = refl
take_from-Keeps s is_over w = refl

reject_from-Keeps : (phase : Phase) (w : Write) → Keeps w (reject_from phase w)
reject_from-Keeps (writing c n size) w = lose-Keeps c w
reject_from-Keeps (stalled c size) w = lose-Keeps c (record w { phase = is_over })
reject_from-Keeps queued w = refl
reject_from-Keeps asking w = refl
reject_from-Keeps is_over w = refl

stall_from-Keeps : (phase : Phase) (w : Write) → Keeps w (stall_from phase w)
stall_from-Keeps (writing c n size) w = refl
stall_from-Keeps queued w = refl
stall_from-Keeps asking w = refl
stall_from-Keeps is_over w = refl
stall_from-Keeps (stalled c size) w = refl

step-Keeps : (s : Settings) (h : Happening) (w : Write) → Keeps w (step s h w)
unfolding step expire begin answer take_chunk reject_chunk stall change_connection
step-Keeps s expires w = expire_from-Keeps w.phase w
step-Keeps s takes w = take_from-Keeps s w.phase w
step-Keeps s rejects w = reject_from-Keeps w.phase w
step-Keeps s stalls w = stall_from-Keeps w.phase w
step-Keeps s (begins now) w = begin_from-Keeps s now w.phase w
step-Keeps s (answers b) w = answer_from-Keeps s b w.phase w
step-Keeps s (changes next) w = refl

pub run-Keeps : (s : Settings) (hs : List Happening) (w : Write) → Keeps w (run s hs w)
unfolding run
run-Keeps s [] w = refl
run-Keeps s (h ∷ hs) w = run-Keeps s hs (step s h w) ∙ step-Keeps s h w
