-- ===== src/Client/PendingWrites/AtMostOnce.antt =====
-- Histories of src/client/pending-writes.ts: who is let begin a write.
use serial_broker.Prelude.{
  ℕ, true, false, none, some, List, [], ◌∷◌, ◌++◌, ◌≡◌, ◌≢◌, ◌⊎◌, inl, inr, ◌==◌, arith, All,
  Bool-cases, ==_iff, ==_refl, subst, ap,
}
use serial_broker.Client.PendingWrites.{
  Host, TraceEvent, added, dispatched, approved, handed_back, settled, Outcome, Call, run, empty,
}
use serial_broker.Client.PendingWrites.Trace.{request_of, open_grant, is_open, IsSafe, IsAllowed}
use serial_broker.Client.PendingWrites.Steps.{run-empty-Inv}

-- The event neither begins the request anew nor is the term's own handing it back.
abbrev pub KeepsGrant : ℕ → ℕ → TraceEvent → Type 0
KeepsGrant r t (added q) = q ≢ r
KeepsGrant r t (handed_back q u) = (q ≢ r) ⊎ (u ≢ t)
KeepsGrant r t (dispatched q u d) = Unit
KeepsGrant r t (approved q u) = Unit
KeepsGrant r t (settled q o) = Unit

IsSafe-drop : (newer older : List TraceEvent) → IsSafe (newer ++ older) → IsSafe older
IsSafe-drop [] older s = s
IsSafe-drop (e ∷ es) older s = IsSafe-drop es older s.1

-- Who may begin or hand back a request that a term was let begin is that term.
granted_to :
    (r t q u : ℕ) (es : List TraceEvent)
    → q ≡ r
    → (open_grant q es ≡ none) ⊎ (open_grant q es ≡ some u)
    → open_grant r es ≡ some t
    → u ≡ t
granted_to r t q u es e (inl free) g = cc (subst (λ i. open_grant i es ≡ none) e free)
granted_to r t q u es e (inr mine) g = cc (subst (λ i. open_grant i es ≡ some u) e mine)

open_grant-cons :
    (r t : ℕ) (e : TraceEvent) (es : List TraceEvent)
    → KeepsGrant r t e
    → IsAllowed e es
    → open_grant r es ≡ some t
    → open_grant r (e ∷ es) ≡ some t
open_grant-cons r t (added q) es k a g = ground arith
open_grant-cons r t (handed_back q u) es k a g = elim (Bool-cases (q == r)) [
  | inr other ↦ rw other g
  | inl same ↦
      let e : q ≡ r = (==_iff q r).0 same in
      elim k [
        | inl others ↦ absurd (others e)
        | inr elsewhere ↦ absurd (elsewhere (granted_to r t q u es e a.2 g))
      ]
]
open_grant-cons r t (dispatched q u d) es k a g = g
open_grant-cons r t (settled q o) es k a g = g
open_grant-cons r t (approved q u) es k a g = elim (Bool-cases (q == r)) [
  | inr other ↦ rw other g
  | inl same ↦
      let e : q ≡ r = (==_iff q r).0 same in rw same (ap some (granted_to r t q u es e a.2 g))
]

open_grant-keeps :
    (r t : ℕ) (between older : List TraceEvent)
    → All (KeepsGrant r t) between
    → IsSafe (between ++ approved r t ∷ older)
    → open_grant r (between ++ approved r t ∷ older) ≡ some t
open_grant-keeps r t [] older k s = rw (==_refl r)
open_grant-keeps r t (e ∷ es) older k s =
    open_grant-cons r t e (es ++ approved r t ∷ older) k.0 s.0
      (open_grant-keeps r t es older k.1 s.1)

-- What an event may not do while a term holds an approval for the request.
abbrev pub RespectsGrant : ℕ → ℕ → TraceEvent → Type 0
RespectsGrant r t (dispatched q u d) = q ≢ r
RespectsGrant r t (approved q u) = (q ≢ r) ⊎ (u ≡ t)
RespectsGrant r t (handed_back q u) = (q ≢ r) ⊎ (u ≡ t)
RespectsGrant r t _ = Unit

IsAllowed-RespectsGrant :
    (r t : ℕ) (e : TraceEvent) (es : List TraceEvent)
    → IsAllowed e es
    → open_grant r es ≡ some t
    → RespectsGrant r t e
IsAllowed-RespectsGrant r t (added q) es a g = tt
IsAllowed-RespectsGrant r t (handed_back q u) es a g = elim (Bool-cases (q == r)) [
  | inr other ↦ inl (ground arith)
  | inl same ↦ inr (granted_to r t q u es ((==_iff q r).0 same) a.2 g)
]
IsAllowed-RespectsGrant r t (settled q o) es a g = tt
IsAllowed-RespectsGrant r t (dispatched q u d) es a g =
    λ e. cc (subst (λ i. open_grant i es ≡ none) e a.1)
IsAllowed-RespectsGrant r t (approved q u) es a g = elim (Bool-cases (q == r)) [
  | inr other ↦ inl (ground arith)
  | inl same ↦ inr (granted_to r t q u es ((==_iff q r).0 same) a.2 g)
]

-- At most once: in any history, from the moment a term is let begin a write until that term hands
-- the write back (or the id is issued anew), the write is handed to no term at all, and no other
-- term is let begin it or hands it back.
pub run-RespectsGrant :
    (cs : List (Host × Call)) (r t : ℕ) (newer : List TraceEvent) (e : TraceEvent)
    (between older : List TraceEvent)
    → (run cs empty).trace ≡ newer ++ (e ∷ (between ++ approved r t ∷ older))
    → All (KeepsGrant r t) between
    → RespectsGrant r t e
run-RespectsGrant cs r t newer e between older split keeps =
    let s = IsSafe-drop newer _ (subst IsSafe split (run-empty-Inv cs).safe) in
    IsAllowed-RespectsGrant r t e (between ++ approved r t ∷ older) s.0
      (open_grant-keeps r t between older keeps s.1)

abbrev pub IsNoAdd : ℕ → TraceEvent → Type 0
IsNoAdd r (added q) = q ≢ r
IsNoAdd r _ = Unit

is_open-stays :
    (r : ℕ) (o : Outcome) (between older : List TraceEvent)
    → All (IsNoAdd r) between
    → is_open r (between ++ settled r o ∷ older) ≡ false
is_open-stays r o [] older k = rw (==_refl r)
is_open-stays r o (added q ∷ es) older k = ground (arith, is_open-stays r o es older k.1)
is_open-stays r o (dispatched q t d ∷ es) older k = is_open-stays r o es older k.1
is_open-stays r o (approved q t ∷ es) older k = is_open-stays r o es older k.1
is_open-stays r o (handed_back q t ∷ es) older k = is_open-stays r o es older k.1
is_open-stays r o (settled q u ∷ es) older k = ground (arith, is_open-stays r o es older k.1)

IsAllowed-is_open :
    (r : ℕ) (e : TraceEvent) (es : List TraceEvent)
    → IsAllowed e es
    → IsNoAdd r e
    → is_open r es ≡ false
    → request_of e ≢ r
IsAllowed-is_open r (added q) es a n shut = n
IsAllowed-is_open r (dispatched q t d) es a n shut =
    λ e. cc (subst (λ i. is_open i es ≡ true) e a.0)
IsAllowed-is_open r (approved q t) es a n shut = λ e. cc (subst (λ i. is_open i es ≡ true) e a.0)
IsAllowed-is_open r (handed_back q t) es a n shut = λ e. cc (subst (λ i. is_open i es ≡ true) e a.0)
IsAllowed-is_open r (settled q o) es a n shut = λ e. cc (subst (λ i. is_open i es ≡ true) e a)

-- Settling is final: in any history, once the promise of a request has settled, and until the id is
-- issued anew, the request is not handed on, approved or handed back, and does not settle again.
pub run-settled_last :
    (cs : List (Host × Call)) (r : ℕ) (o : Outcome) (newer : List TraceEvent) (e : TraceEvent)
    (between older : List TraceEvent)
    → (run cs empty).trace ≡ newer ++ (e ∷ (between ++ settled r o ∷ older))
    → All (IsNoAdd r) between
    → IsNoAdd r e
    → request_of e ≢ r
run-settled_last cs r o newer e between older split quiet n =
    let s = IsSafe-drop newer _ (subst IsSafe split (run-empty-Inv cs).safe) in
    IsAllowed-is_open r e (between ++ settled r o ∷ older) s.0 n
      (is_open-stays r o between older quiet)
