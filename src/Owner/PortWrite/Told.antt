-- ===== src/Owner/PortWrite/Told.antt =====
-- What the promise of a write (src/owner/port-supervisor.ts) says, and what the device was given.
use serial_broker.Prelude.{ℕ, ◌+◌, ◌≤◌, List, [], ◌∷◌, ◌++◌, ◌≡◌, subst, length, take}
use serial_broker.Owner.PortWrite.{
  Settlement, written, failed, timed_out, Phase, queued, asking, is_over, writing, stalled,
  WriteEvent, asked, approved, given, settled, lost, Write,
}

-- Everything that the device was given, in order.
abbrev pub given_bytes : List WriteEvent → List ℕ
given_bytes [] = []
given_bytes (given c chunk ∷ es) = given_bytes es ++ chunk
given_bytes (asked ∷ es) = given_bytes es
given_bytes (approved ∷ es) = given_bytes es
given_bytes (settled s ∷ es) = given_bytes es
given_bytes (lost c ∷ es) = given_bytes es

abbrev pub settlements : List WriteEvent → List Settlement
settlements [] = []
settlements (settled s ∷ es) = s ∷ settlements es
settlements (given c chunk ∷ es) = settlements es
settlements (asked ∷ es) = settlements es
settlements (approved ∷ es) = settlements es
settlements (lost c ∷ es) = settlements es

-- The first `n` bytes of the payload, and at most one chunk more.
abbrev pub IsUpTo : ℕ → ℕ → List ℕ → List ℕ → Type 0
IsUpTo most n bytes payload = (size : ℕ) × (size ≤ most) × (bytes ≡ take (n + size) payload)

-- What a settlement says of the bytes that the device was given, and of those that it took.
abbrev pub IsTrue : ℕ → Settlement → List ℕ → ℕ → List ℕ → Type 0
IsTrue most written bytes sent payload = (bytes ≡ payload) × (sent ≡ length payload)
IsTrue most (failed n) bytes sent payload = (sent ≡ n) × IsUpTo most n bytes payload
IsTrue most (timed_out n) bytes sent payload = (n ≤ sent) × IsUpTo most n bytes payload
IsTrue most _ bytes sent payload = (bytes ≡ []) × (sent ≡ 0)

-- At most one settlement, which is true.
abbrev pub IsToldTruly : ℕ → List Settlement → List ℕ → ℕ → List ℕ → Type 0
IsToldTruly most [] bytes sent payload = Unit
IsToldTruly most (s ∷ []) bytes sent payload = IsTrue most s bytes sent payload
IsToldTruly most (s ∷ t ∷ ss) bytes sent payload = ⊥

-- The phase, the settlements, what was given and what was taken.
abbrev pub View : ℕ → Phase → List Settlement → List ℕ → ℕ → List ℕ → Type 0
View most queued ss bytes sent payload = (ss ≡ []) × (bytes ≡ []) × (sent ≡ 0)
View most asking ss bytes sent payload = (ss ≡ []) × (bytes ≡ []) × (sent ≡ 0)
View most (writing c n size) ss bytes sent payload =
    (ss ≡ [])
    × (bytes ≡ take (n + size) payload)
    × (sent ≡ n)
    × (size ≤ most)
    × (n + size ≤ length payload)
View most (stalled c size) ss bytes sent payload =
    (n : ℕ) × (ss ≡ timed_out n ∷ [])
    × (bytes ≡ take (n + size) payload)
    × (sent ≡ n)
    × (size ≤ most)
    × (n + size ≤ length payload)
View most is_over ss bytes sent payload =
    (s : Settlement) × (ss ≡ s ∷ []) × IsTrue most s bytes sent payload

abbrev pub IsAt : ℕ → Phase → Write → Type 0
IsAt most phase w =
    View most phase (settlements w.trace) (given_bytes w.trace) w.bytes_sent w.payload

abbrev pub Holds : ℕ → Write → Type 0
Holds most w = IsAt most w.phase w

pub IsAt-phase :
    (most : ℕ) (phase : Phase) (w : Write) → w.phase ≡ phase → Holds most w → IsAt most phase w
IsAt-phase most phase w e h = subst (λ p. IsAt most p w) e h
