-- ===== src/Owner/Election/Fine.antt =====
-- What an election (src/owner/election.ts) may say, and its invariant.
use serial_broker.Prelude.{Bool, true, false, List, [], ◌∷◌, ◌≡◌, refl, ◌⊎◌}
use serial_broker.Core.HeldLock.{refused, LockRequest, no_request, waits, holds, ends, settled}
use serial_broker.Owner.Election.{
  ElectionEvent, acquires, loses_port, stops_election, TermPhase, outside, asks, owns, Election,
  grant_ownership, reject_ownership,
}

abbrev pub owned : List ElectionEvent → Bool
owned [] = false
owned (acquires ∷ es) = true
owned (loses_port ∷ es) = false
owned (_ ∷ es) = owned es

abbrev pub was_stopped : List ElectionEvent → Bool
was_stopped [] = false
was_stopped (stops_election ∷ es) = true
was_stopped (_ ∷ es) = was_stopped es

-- The port is acquired when it is not owned, lost when it is; and once the election was stopped, no lock
-- is requested, no port acquired and no failure recorded.
abbrev pub MayFollow : ElectionEvent → List ElectionEvent → Type 0
MayFollow acquires es = (owned es ≡ false) × (was_stopped es ≡ false)
MayFollow loses_port es = owned es ≡ true
MayFollow stops_election es = Unit
MayFollow _ es = was_stopped es ≡ false

abbrev pub IsOrdered : List ElectionEvent → Type 0
IsOrdered [] = Unit
IsOrdered (e ∷ es) = MayFollow e es × IsOrdered es

-- What a request and the phase inside it say of the owner, the stop and the retry.
abbrev pub IsFine : LockRequest → TermPhase → (is_owner is_stopped has_retry : Bool) → Type 0
IsFine no_request outside o s r =
    (o ≡ false) × ((s ≡ false) × (r ≡ true) ⊎ (s ≡ true) × (r ≡ false))
IsFine waits outside o s r = (o ≡ false) × (r ≡ false)
IsFine holds asks o s r = (o ≡ false) × (r ≡ false)
IsFine holds owns o s r = (o ≡ true) × (r ≡ false)
IsFine (settled refused) outside o s r = r ≡ false
IsFine (settled _) outside o s r = (s ≡ true) × (r ≡ false)
IsFine ends outside o s r = (s ≡ false) × (r ≡ true) ⊎ (s ≡ true) × (r ≡ false)
IsFine _ _ o s r = ⊥

abbrev pub made :
    LockRequest → TermPhase → (is_owner is_stopped has_retry : Bool) → List ElectionEvent → Election
made q p o s r es = record {
  lock = record { is_stopped = s; request = q; has_retry = r };
  phase = p;
  is_owner = o;
  trace = es;
}

pub record FineElection (q : LockRequest) (p : TermPhase) (o s r : Bool) (es : List ElectionEvent)
    : Type 0 where
  pub fine : IsFine q p o s r
  pub owner_told : owned es ≡ o
  pub stop_told : was_stopped es ≡ s
  pub ordered : IsOrdered es

abbrev pub FineOf : Election → Type 0
FineOf s = FineElection s.lock.request s.phase s.is_owner s.lock.is_stopped s.lock.has_retry s.trace

pub grant-FineOf :
    (q : LockRequest) (p : TermPhase) (o s r : Bool) (es : List ElectionEvent)
    → FineElection q p o s r es
    → FineOf (grant_ownership (made q p o s r es))
grant-FineOf waits outside o true r es v = record {
  fine = (refl, v.fine.1);
  owner_told = v.owner_told;
  stop_told = v.stop_told;
  ordered = v.ordered;
}
grant-FineOf waits outside o false r es v = record {
  fine = v.fine;
  owner_told = v.owner_told;
  stop_told = v.stop_told;
  ordered = (v.stop_told, v.ordered);
}
grant-FineOf waits asks o s r es v = absurd v.fine
grant-FineOf waits owns o s r es v = absurd v.fine
grant-FineOf no_request p o s r es v = v
grant-FineOf holds p o s r es v = v
grant-FineOf ends p o s r es v = v
grant-FineOf (settled e) p o s r es v = v

pub reject-FineOf :
    (b : Bool) (q : LockRequest) (p : TermPhase) (o s r : Bool) (es : List ElectionEvent)
    → FineElection q p o s r es
    → FineOf (reject_ownership b (made q p o s r es))
reject-FineOf true waits outside o true r es v = record {
  fine = (refl, v.fine.1);
  owner_told = v.owner_told;
  stop_told = v.stop_told;
  ordered = v.ordered;
}
reject-FineOf true waits outside o false r es v = v
reject-FineOf false waits outside o s r es v = record {
  fine = v.fine.1;
  owner_told = v.owner_told;
  stop_told = v.stop_told;
  ordered = v.ordered;
}
reject-FineOf b waits asks o s r es v = absurd v.fine
reject-FineOf b waits owns o s r es v = absurd v.fine
reject-FineOf b no_request p o s r es v = v
reject-FineOf b holds p o s r es v = v
reject-FineOf b ends p o s r es v = v
reject-FineOf b (settled e) p o s r es v = v
