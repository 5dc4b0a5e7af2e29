-- ===== src/Client/AcceptedWrites/Admits.antt =====
-- `admit` and `finish` of src/client/accepted-writes.ts and the writes in progress.
use serial_broker.Prelude.{
  true, false, Option, ◌≡◌, refl, ◌⊎◌, inl, inr, if◌then◌else◌, Bool-cases, Option-cases, Text,
  text_eq,
}
use serial_broker.Core.Errors.{SerialBrokerError}
use serial_broker.Client.AcceptedWrites.{
  AcceptedWrites, Admission, fresh, in_progress, finished, key_of, has, get, admit_key, admit,
  finish,
}
use serial_broker.Client.AcceptedWrites.InFlight.{has-add, has-delete, in_progress-finish_key}

-- `admit` takes a request that is not in progress, or says that it is or how it ended.
abbrev pub IsAdmission : Text → AcceptedWrites → AcceptedWrites × Admission → Type 0
IsAdmission k s r =
    (r.1 ≡ fresh)
      × (has k s.in_progress ≡ false)
      × ((j : Text) → has j r.0.in_progress ≡ (if text_eq k j then true else has j s.in_progress))
    ⊎ (r.0 ≡ s) × (r.1 ≡ in_progress)
    ⊎ (r.0 ≡ s) × ((e : Option SerialBrokerError) × (r.1 ≡ finished e))

admit_key-IsAdmission : (k : Text) (s : AcceptedWrites) → IsAdmission k s (admit_key k s)
unfolding admit_key
admit_key-IsAdmission k s = elim (Bool-cases (has k s.in_progress)) [
  | inl there ↦ rw (there, admit_key) (inr (inl (refl, refl)))
  | inr absent ↦ elim (Option-cases (get k s.finished)) [
    | inr (e, known) ↦ rw (absent, known, admit_key) (inr (inr (refl, (e, refl))))
    | inl unknown ↦
        rw (absent, unknown, admit_key) (inl (refl, refl, λ j. has-add k j s.in_progress))
  ]
]

pub admit-IsAdmission : (o r : Text) (s : AcceptedWrites) → IsAdmission (key_of o r) s (admit o r s)
unfolding admit
admit-IsAdmission o r s = admit_key-IsAdmission (key_of o r) s

pub has-finish :
    (o r j : Text) (e : Option SerialBrokerError) (s : AcceptedWrites)
    → has j (finish o r e s).in_progress
      ≡ (if text_eq (key_of o r) j then false else has j s.in_progress)
unfolding finish
has-finish o r j e s =
    rw (in_progress-finish_key (key_of o r) e s) (has-delete (key_of o r) j s.in_progress)
