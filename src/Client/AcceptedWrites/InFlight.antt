-- ===== src/Client/AcceptedWrites/InFlight.antt =====
-- The writes in progress of src/client/accepted-writes.ts, in any history.
use serial_broker.Prelude.{
  ℕ, Bool, true, false, Option, List, [], ◌∷◌, ◌++◌, ◌≡◌, refl, sym, ◌∙◌, inl, inr, if◌then◌else◌,
  arith, Bool-cases, Option-cases, Text, text_eq, text_eq_iff,
}
use serial_broker.Core.Errors.{SerialBrokerError}
use serial_broker.Client.AcceptedWrites.{
  AcceptedWrites, Admission, fresh, in_progress, finished, new, key_of, has, add, delete, get,
  admit_key, admit, finish_key, finish, Call, admits, finishes, step,
}

-- What the tab holding the port does on an answer of `admit`: it begins the write if it is new.
pub data WriteEvent : Type 0 where
  begun : Text → WriteEvent
  ended : Text → WriteEvent

abbrev after_admission : Text → Admission → List WriteEvent → List WriteEvent
after_admission k fresh es = begun k ∷ es
after_admission k in_progress es = es
after_admission k (finished e) es = es

-- What one call begins or ends, newest first.
pub log : Call → AcceptedWrites → List WriteEvent → List WriteEvent
log (admits origin r) s es = after_admission (key_of origin r) (admit origin r s).1 es
log (finishes origin r error) s es = ended (key_of origin r) ∷ es

pub run_log : List Call → AcceptedWrites → List WriteEvent → List WriteEvent
unfolding log
run_log [] s es = es
run_log (c ∷ cs) s es = run_log cs (step c s) (log c s es)

-- Begun and not ended since.
abbrev pub in_flight : Text → List WriteEvent → Bool
in_flight k [] = false
in_flight k (begun j ∷ es) = if text_eq j k then true else in_flight k es
in_flight k (ended j ∷ es) = if text_eq j k then false else in_flight k es

abbrev pub IsExclusive : List WriteEvent → Type 0
IsExclusive [] = Unit
IsExclusive (begun k ∷ es) = (in_flight k es ≡ false) × IsExclusive es
IsExclusive (ended k ∷ es) = IsExclusive es

has-append :
    (k j : Text) (js : List Text) → has j (js ++ k ∷ []) ≡ (if text_eq k j then true else has j js)
unfolding has
has-append k j [] = ground arith
has-append k j (i ∷ js) = ground (arith, has-append k j js)

pub has-add :
    (k j : Text) (js : List Text) → has j (add k js) ≡ (if text_eq k j then true else has j js)
unfolding add
has-add k j js = elim (Bool-cases (has k js)) [
  | inr absent ↦ rw absent (has-append k j js)
  | inl there ↦ rw there (elim (Bool-cases (text_eq k j)) [
    | inl same ↦ rw same (rw (← (text_eq_iff k j).0 same) there)
    | inr other ↦ rw other
  ])
]

pub has-delete :
    (k j : Text) (js : List Text) → has j (delete k js) ≡ (if text_eq k j then false else has j js)
unfolding has delete
has-delete k j [] = ground arith
has-delete k j (i ∷ js) =
    ground (arith, has-delete k j js, text_eq_iff i k, text_eq_iff i j, text_eq_iff k j)

abbrev Tracks : AcceptedWrites → List WriteEvent → Type 0
Tracks s es = (k : Text) → has k s.in_progress ≡ in_flight k es

-- Finishing a write takes it, and no other, out of those in progress.
pub in_progress-finish_key :
    (k : Text) (e : Option SerialBrokerError) (s : AcceptedWrites)
    → (finish_key k e s).in_progress ≡ delete k s.in_progress
unfolding finish_key
in_progress-finish_key k e s = ground arith

finish_key-Tracks :
    (k : Text) (e : Option SerialBrokerError) (s : AcceptedWrites) (es : List WriteEvent)
    → Tracks s es
    → Tracks (finish_key k e s) (ended k ∷ es)
finish_key-Tracks k e s es t j =
    rw (in_progress-finish_key k e s) (rw (has-delete k j s.in_progress) (rw (t j)))

admit_key-Tracks :
    (k : Text) (s : AcceptedWrites) (es : List WriteEvent)
    → Tracks s es
    → IsExclusive es
    → Tracks (admit_key k s).0 (after_admission k (admit_key k s).1 es)
      × IsExclusive (after_admission k (admit_key k s).1 es)
unfolding admit_key
admit_key-Tracks k s es t x = elim (Bool-cases (has k s.in_progress)) [
  | inl there ↦ rw (there, admit_key) (t, x)
  | inr absent ↦ elim (Option-cases (get k s.finished)) [
    | inr (e, known) ↦ rw (absent, known, admit_key) (t, x)
    | inl unknown ↦
        rw (absent, unknown, admit_key)
          ((λ j. rw (has-add k j s.in_progress) (rw (t j))), (sym (t k) ∙ absent, x))
  ]
]

run_log-Tracks :
    (cs : List Call) (s : AcceptedWrites) (es : List WriteEvent)
    → Tracks s es
    → IsExclusive es
    → IsExclusive (run_log cs s es)
unfolding run_log step admit finish
run_log-Tracks [] s es t x = x
run_log-Tracks (admits origin r ∷ cs) s es t x =
    let (t', x') = admit_key-Tracks (key_of origin r) s es t x in run_log-Tracks cs _ _ t' x'
run_log-Tracks (finishes origin r e ∷ cs) s es t x =
    run_log-Tracks cs _ _ (finish_key-Tracks (key_of origin r) e s es t) x

-- Whatever the calls and the bound on finished writes, a write is begun only while no write with its
-- key is being written: between two times that `admit` answers "new" for one key, `finish` was
-- called for it.
pub run_log-IsExclusive :
    (max_finished : ℕ) (cs : List Call) → IsExclusive (run_log cs (new max_finished) [])
unfolding has
run_log-IsExclusive max_finished cs = run_log-Tracks cs (new max_finished) [] (λ k. refl) tt
