-- ===== src/Owner/Election/Inside.antt =====
-- The term inside the ownership lock (src/owner/election.ts), and the end of a request, against the invariant.
use serial_broker.Prelude.{Bool, true, false, List, ◌≡◌, refl, sym, ◌∙◌, ◌⊎◌, inl, inr, subst}
use serial_broker.Core.HeldLock.{
  Outcome, returned, aborted, refused, LockRequest, no_request, waits, holds, ends, settled,
}
use serial_broker.Owner.Election.{
  ElectionEvent, TermPhase, outside, asks, owns, take_term, refuse_term, let_go, react,
  finish_request,
}
use serial_broker.Owner.Election.Fine.{IsFine, made, FineElection, FineOf}

-- Inside the ownership lock the request is held.
inside :
    (q : LockRequest) (p : TermPhase) (o s r : Bool)
    → IsFine q p o s r
    → (p ≡ outside) ⊎ (q ≡ holds)
inside q outside o s r h = inl refl
inside holds p o s r h = inr refl
inside no_request asks o s r h = absurd h
inside no_request owns o s r h = absurd h
inside waits asks o s r h = absurd h
inside waits owns o s r h = absurd h
inside ends asks o s r h = absurd h
inside ends owns o s r h = absurd h
inside (settled returned) asks o s r h = absurd h
inside (settled returned) owns o s r h = absurd h
inside (settled aborted) asks o s r h = absurd h
inside (settled aborted) owns o s r h = absurd h
inside (settled refused) asks o s r h = absurd h
inside (settled refused) owns o s r h = absurd h

when_held :
    (P : LockRequest → Type 0) (q : LockRequest) (p : TermPhase) (o s r : Bool)
    → IsFine q p o s r
    → (p ≡ outside → ⊥)
    → P holds
    → P q
when_held P q p o s r h inner there = elim (inside q p o s r h) [
  | inl out ↦ absurd (inner out)
  | inr held ↦ subst P (sym held) there
]

take_term_held :
    (throws o s r : Bool) (es : List ElectionEvent)
    → FineElection holds asks o s r es
    → FineOf (take_term throws (made holds asks o s r es))
take_term_held throws o true r es v = record {
  fine = (refl, v.fine.1);
  owner_told = v.owner_told;
  stop_told = v.stop_told;
  ordered = v.ordered;
}
take_term_held true o false r es v = record {
  fine = v.fine.1;
  owner_told = refl;
  stop_told = v.stop_told;
  ordered = ((v.owner_told ∙ v.fine.0, v.stop_told), v.ordered);
}
take_term_held false o false r es v = record {
  fine = (refl, v.fine.1);
  owner_told = refl;
  stop_told = v.stop_told;
  ordered = ((v.owner_told ∙ v.fine.0, v.stop_told), v.ordered);
}

pub take_term-FineOf :
    (throws : Bool) (q : LockRequest) (p : TermPhase) (o s r : Bool) (es : List ElectionEvent)
    → FineElection q p o s r es
    → FineOf (take_term throws (made q p o s r es))
take_term-FineOf throws q outside o s r es v = v
take_term-FineOf throws q owns o s r es v = v
take_term-FineOf throws q asks o s r es v =
    when_held (λ x. FineElection x asks o s r es → FineOf (take_term throws (made x asks o s r es)))
      q asks o s r v.fine (λ e. cc (e)) (take_term_held throws o s r es) v

pub refuse_term-FineOf :
    (q : LockRequest) (p : TermPhase) (o s r : Bool) (es : List ElectionEvent)
    → FineElection q p o s r es
    → FineOf (refuse_term (made q p o s r es))
refuse_term-FineOf q outside o s r es v = v
refuse_term-FineOf q owns o s r es v = v
refuse_term-FineOf q asks o s r es v =
    when_held (λ x. FineElection x asks o s r es → FineOf (refuse_term (made x asks o s r es))) q
      asks o s r v.fine (λ e. cc (e))
      (λ w. record {
        fine = w.fine.1;
        owner_told = w.owner_told;
        stop_told = w.stop_told;
        ordered = w.ordered;
      })
      v

let_go_held :
    (o s r : Bool) (es : List ElectionEvent)
    → FineElection holds owns o s r es
    → FineOf (let_go (made holds owns o s r es))
let_go_held o true r es v = record {
  fine = (refl, v.fine.1);
  owner_told = v.owner_told;
  stop_told = v.stop_told;
  ordered = v.ordered;
}
let_go_held o false r es v = v

pub let_go-FineOf :
    (q : LockRequest) (p : TermPhase) (o s r : Bool) (es : List ElectionEvent)
    → FineElection q p o s r es
    → FineOf (let_go (made q p o s r es))
let_go-FineOf q outside o s r es v = v
let_go-FineOf q asks o s r es v = v
let_go-FineOf q owns o s r es v =
    when_held (λ x. FineElection x owns o s r es → FineOf (let_go (made x owns o s r es))) q owns o
      s r v.fine (λ e. cc (e)) (let_go_held o s r es) v

react_settled :
    (e : Outcome) (o s r : Bool) (es : List ElectionEvent)
    → FineElection (settled e) outside o s r es
    → FineOf (react (made (settled e) outside o s r es))
react_settled refused o true r es v = record {
  fine = inr (refl, v.fine);
  owner_told = v.owner_told;
  stop_told = v.stop_told;
  ordered = v.ordered;
}
react_settled refused o false r es v = record {
  fine = inl (refl, refl);
  owner_told = v.owner_told;
  stop_told = v.stop_told;
  ordered = (v.stop_told, v.ordered);
}
react_settled returned o s r es v = record {
  fine = inr v.fine;
  owner_told = v.owner_told;
  stop_told = v.stop_told;
  ordered = v.ordered;
}
react_settled aborted o s r es v = record {
  fine = inr v.fine;
  owner_told = v.owner_told;
  stop_told = v.stop_told;
  ordered = v.ordered;
}

settled_outside :
    (e : Outcome) (p : TermPhase) (o s r : Bool) → IsFine (settled e) p o s r → p ≡ outside
settled_outside e p o s r h = elim (inside (settled e) p o s r h) [
  | inl out ↦ out
  | inr held ↦ cc (held)
]

pub react-FineOf :
    (q : LockRequest) (p : TermPhase) (o s r : Bool) (es : List ElectionEvent)
    → FineElection q p o s r es
    → FineOf (react (made q p o s r es))
react-FineOf no_request p o s r es v = v
react-FineOf waits p o s r es v = v
react-FineOf holds p o s r es v = v
react-FineOf ends p o s r es v = v
react-FineOf (settled e) p o s r es v =
    subst (λ x. FineElection (settled e) x o s r es → FineOf (react (made (settled e) x o s r es)))
      (sym (settled_outside e p o s r v.fine)) (react_settled e o s r es) v

pub finish-FineOf :
    (q : LockRequest) (p : TermPhase) (o s r : Bool) (es : List ElectionEvent)
    → FineElection q p o s r es
    → FineOf (finish_request (made q p o s r es))
finish-FineOf ends outside true s r es v = record {
  fine = (refl, v.fine);
  owner_told = refl;
  stop_told = v.stop_told;
  ordered = (v.owner_told, v.ordered);
}
finish-FineOf ends outside false s r es v = record {
  fine = (refl, v.fine);
  owner_told = v.owner_told;
  stop_told = v.stop_told;
  ordered = v.ordered;
}
finish-FineOf ends asks o s r es v = absurd v.fine
finish-FineOf ends owns o s r es v = absurd v.fine
finish-FineOf no_request p o s r es v = v
finish-FineOf waits p o s r es v = v
finish-FineOf holds p o s r es v = v
finish-FineOf (settled e) p o s r es v = v
