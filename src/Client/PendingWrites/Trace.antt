-- ===== src/Client/PendingWrites/Trace.antt =====
-- What the trace of `PendingWrites` says of a request, and the invariant that ties the table of
-- outstanding writes to it.
use serial_broker.Prelude.{
  ℕ, Bool, true, false, Option, none, some, List, [], ◌∷◌, ◌≡◌, ◌≢◌, ◌⊎◌, inl, inr, ◌==◌, arith,
  if◌then◌else◌, All, Table, lookup, insert, remove, values, lookup-insert, lookup-remove,
  Bool-cases, ==_iff, subst, sym, ◌∙◌,
}
use serial_broker.Client.PendingWrites.{
  PendingWrite, Tracker, TraceEvent, added, dispatched, approved, handed_back, settled,
}

abbrev pub request_of : TraceEvent → ℕ
request_of (added r) = r
request_of (dispatched r t d) = r
request_of (approved r t) = r
request_of (handed_back r t) = r
request_of (settled r o) = r

-- The term that was let begin the request and has not handed it back.
abbrev pub open_grant : ℕ → List TraceEvent → Option ℕ
open_grant r [] = none
open_grant r (added q ∷ es) = if q == r then none else open_grant r es
open_grant r (dispatched q t d ∷ es) = open_grant r es
open_grant r (approved q t ∷ es) = if q == r then some t else open_grant r es
open_grant r (handed_back q t ∷ es) = if q == r then none else open_grant r es
open_grant r (settled q o ∷ es) = open_grant r es

-- The term that the request was last handed to.
abbrev pub last_addressed : ℕ → List TraceEvent → Option ℕ
last_addressed r [] = none
last_addressed r (added q ∷ es) = if q == r then none else last_addressed r es
last_addressed r (dispatched q t d ∷ es) = if q == r then some t else last_addressed r es
last_addressed r (_ ∷ es) = last_addressed r es

-- The request was added and its promise has not settled.
abbrev pub is_open : ℕ → List TraceEvent → Bool
is_open r [] = false
is_open r (added q ∷ es) = if q == r then true else is_open r es
is_open r (settled q o ∷ es) = if q == r then false else is_open r es
is_open r (_ ∷ es) = is_open r es

-- A request addressed to `o` may go to `t`: it was with no term, or with this one, or the host said
-- that the term it was with has ended.
abbrev pub MayMove : (ℕ → Bool) → Option ℕ → ℕ → Type 0
MayMove ended none t = Unit
MayMove ended (some a) t = (a ≡ t) ⊎ (ended a ≡ true)

-- What the protocol allows at each event, given the events before it.
abbrev pub IsAllowed : TraceEvent → List TraceEvent → Type 0
IsAllowed (added r) es = Unit
IsAllowed (dispatched r t d) es =
    (is_open r es ≡ true) × (open_grant r es ≡ none) × MayMove d (last_addressed r es) t
IsAllowed (approved r t) es =
    (is_open r es ≡ true)
    × (last_addressed r es ≡ some t)
    × ((open_grant r es ≡ none) ⊎ (open_grant r es ≡ some t))
IsAllowed (handed_back r t) es =
    (is_open r es ≡ true)
    × (last_addressed r es ≡ some t)
    × ((open_grant r es ≡ none) ⊎ (open_grant r es ≡ some t))
IsAllowed (settled r o) es = is_open r es ≡ true

abbrev pub IsSafe : List TraceEvent → Type 0
IsSafe [] = Unit
IsSafe (e ∷ es) = IsAllowed e es × IsSafe es

-- A write that was let begin is with the term that it was addressed to.
abbrev pub IsWithAddressee : Option ℕ → Option ℕ → Type 0
IsWithAddressee none addressed = Unit
IsWithAddressee (some t) addressed = addressed ≡ some t

-- The entry of a request says what the trace says.
abbrev pub Agrees : ℕ → Option PendingWrite → List TraceEvent → Type 0
Agrees r none es = is_open r es ≡ false
Agrees r (some p) es =
    (p.request_id ≡ r)
    × (is_open r es ≡ true)
    × (open_grant r es ≡ p.started_term)
    × (last_addressed r es ≡ p.addressed_term)
    × IsWithAddressee p.started_term p.addressed_term

-- An event about one request changes nothing of another.
pub Agrees-other :
    (e : TraceEvent) (j : ℕ) (o : Option PendingWrite) (es : List TraceEvent)
    → request_of e ≢ j
    → Agrees j o es
    → Agrees j o (e ∷ es)
Agrees-other (added r) j none es n h = ground arith
Agrees-other (added r) j (some p) es n h = ground arith
Agrees-other (dispatched r t d) j none es n h = ground arith
Agrees-other (dispatched r t d) j (some p) es n h = ground arith
Agrees-other (approved r t) j none es n h = ground arith
Agrees-other (approved r t) j (some p) es n h = ground arith
Agrees-other (handed_back r t) j none es n h = ground arith
Agrees-other (handed_back r t) j (some p) es n h = ground arith
Agrees-other (settled r o) j none es n h = ground arith
Agrees-other (settled r o) j (some p) es n h = ground arith

abbrev pub AllAgree : Tracker → Type 0
AllAgree s = (r : ℕ) → Agrees r (lookup r s.writes) s.trace

-- To change the entry of one request, with or without an event about it.
pub Agrees-insert :
    (k j : ℕ) (p : PendingWrite) (m : Table PendingWrite) (es : List TraceEvent)
    → Agrees k (some p) es
    → (k ≢ j → Agrees j (lookup j m) es)
    → Agrees j (lookup j (insert k p m)) es
Agrees-insert k j p m es here there = rw (lookup-insert k j p m) (elim (Bool-cases (k == j)) [
  | inl same ↦ rw same (subst (λ i. Agrees i (some p) es) ((==_iff k j).0 same) here)
  | inr other ↦ rw other (there (λ e. ground arith))
])

pub Agrees-remove :
    (k j : ℕ) (m : Table PendingWrite) (es : List TraceEvent)
    → Agrees k none es
    → (k ≢ j → Agrees j (lookup j m) es)
    → Agrees j (lookup j (remove k m)) es
Agrees-remove k j m es here there = rw (lookup-remove k j m) (elim (Bool-cases (k == j)) [
  | inl same ↦ rw same (subst (λ i. Agrees i none es) ((==_iff k j).0 same) here)
  | inr other ↦ rw other (there (λ e. ground arith))
])

-- The keys are the requests' own, each once.
abbrev pub IsFresh : ℕ → List PendingWrite → Type 0
IsFresh k = All (λ p. p.request_id ≢ k)

abbrev pub IsKeyed : Table PendingWrite → Type 0
IsKeyed [] = Unit
IsKeyed ((k, p) ∷ m) = (p.request_id ≡ k) × IsFresh k (values m) × IsKeyed m

pub IsFresh-insert :
    (j k : ℕ) (p : PendingWrite) (m : Table PendingWrite)
    → p.request_id ≢ j
    → IsFresh j (values m)
    → IsFresh j (values (insert k p m))
unfolding insert
IsFresh-insert j k p [] n h = (n, tt)
IsFresh-insert j k p ((i, q) ∷ m) n h = ground (arith, IsFresh-insert j k p m n h.1)

pub IsFresh-remove :
    (j k : ℕ) (m : Table PendingWrite) → IsFresh j (values m) → IsFresh j (values (remove k m))
unfolding remove
IsFresh-remove j k [] h = tt
IsFresh-remove j k ((i, q) ∷ m) h = ground (arith, IsFresh-remove j k m h.1)

pub IsKeyed-insert :
    (k : ℕ) (p : PendingWrite) (m : Table PendingWrite)
    → p.request_id ≡ k
    → IsKeyed m
    → IsKeyed (insert k p m)
unfolding insert
IsKeyed-insert k p [] e h = (e, tt, tt)
IsKeyed-insert k p ((i, q) ∷ m) e h = elim (Bool-cases (i == k)) [
  | inl same ↦ rw same (e ∙ sym ((==_iff i k).0 same), h.1, h.2)
  | inr other ↦
      rw other (h.0, IsFresh-insert i k p m (ground arith) h.1, IsKeyed-insert k p m e h.2)
]

pub IsKeyed-remove : (k : ℕ) (m : Table PendingWrite) → IsKeyed m → IsKeyed (remove k m)
unfolding remove
IsKeyed-remove k [] h = tt
IsKeyed-remove k ((i, q) ∷ m) h = elim (Bool-cases (i == k)) [
  | inl same ↦ rw same (IsKeyed-remove k m h.2)
  | inr other ↦ rw other (h.0, IsFresh-remove i k m h.1, IsKeyed-remove k m h.2)
]

-- The writes of a snapshot that are still in the table as they were, each once.
abbrev pub AreListed : Table PendingWrite → List PendingWrite → Type 0
AreListed m [] = Unit
AreListed m (p ∷ ps) = (lookup p.request_id m ≡ some p) × IsFresh p.request_id ps × AreListed m ps

pub AreListed-insert :
    (k : ℕ) (q : PendingWrite) (m : Table PendingWrite) (ps : List PendingWrite)
    → IsFresh k ps
    → AreListed m ps
    → AreListed (insert k q m) ps
AreListed-insert k q m [] f h = tt
AreListed-insert k q m (p ∷ ps) f h =
    (ground (arith, lookup-insert k p.request_id q m), h.1, AreListed-insert k q m ps f.1 h.2)

pub AreListed-remove :
    (k : ℕ) (m : Table PendingWrite) (ps : List PendingWrite)
    → IsFresh k ps
    → AreListed m ps
    → AreListed (remove k m) ps
AreListed-remove k m [] f h = tt
AreListed-remove k m (p ∷ ps) f h =
    (ground (arith, lookup-remove k p.request_id m), h.1, AreListed-remove k m ps f.1 h.2)

AreListed-cons :
    (k : ℕ) (q : PendingWrite) (m : Table PendingWrite) (ps : List PendingWrite)
    → IsFresh k ps
    → AreListed m ps
    → AreListed ((k, q) ∷ m) ps
unfolding lookup
AreListed-cons k q m [] f h = tt
AreListed-cons k q m (p ∷ ps) f h = (ground arith, h.1, AreListed-cons k q m ps f.1 h.2)

-- A snapshot of the values, when it is taken.
pub AreListed-values : (m : Table PendingWrite) → IsKeyed m → AreListed m (values m)
unfolding lookup
AreListed-values [] h = tt
AreListed-values ((k, p) ∷ m) h = (
  ground arith,
  subst (λ j. IsFresh j (values m)) (sym h.0) h.1,
  AreListed-cons k p m (values m) h.1 (AreListed-values m h.2),
)

-- The invariant of the class.
pub record Inv (s : Tracker) : Type 0 where
  pub agrees : AllAgree s
  pub keyed : IsKeyed s.writes
  pub safe : IsSafe s.trace
