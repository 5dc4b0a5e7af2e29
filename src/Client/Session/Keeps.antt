-- ===== src/Client/Session/Keeps.antt =====
-- The parts of the operations of a session (src/client/configuration-session.ts) against the invariant.
use serial_broker.Prelude.{
  ℕ, suc, ◌+◌, ◌≤◌, Bool, true, false, not, ◌&&◌, ◌||◌, ◌==◌, Option, none, some, is_some, is_value,
  ◌≡◌, refl, sym, ◌∙◌, ap, subst, arith, by_if, by_option,
}
use serial_broker.Core.Errors.{ErrorCode}
use serial_broker.Owner.PortMatcher.{ResolvedDevice}
use serial_broker.Client.Session.{
  change_status, set_status, broadcast_status, emit_error, stop_supervisor, on_status, begin_term,
}
use serial_broker.Client.Session.Inbox.{resolves, resolve_device}
use serial_broker.Client.Session.State.{SessionStatus, opened, released, same_status, Session}
use serial_broker.Client.Session.Order.{
  one_if, current, claims_of, goodbyes, shown, count, IsHeld, Core, CoreOf, Holds,
}

pub neither : (a b : Bool) → a || b ≡ false → (a ≡ false) × (b ≡ false)
neither true b h = cc
neither false b h = (refl, h)

-- The status changes, to another one.
change_status-Holds :
    (next : SessionStatus) (s : Session)
    → Holds s
    → same_status s.status next ≡ false
    → Holds (change_status next s)
change_status-Holds next s v other = (
  record {
    tied = v.0.tied;
    paired = v.0.paired;
    held = v.0.held;
    over = v.0.over;
    counted = v.0.counted;
    once = v.0.once;
    fresh = v.0.fresh;
    shows = refl;
  },
  ((sym v.0.shows, other), v.1),
)

pub set_status-Holds : (next : SessionStatus) (s : Session) → Holds s → Holds (set_status next s)
set_status-Holds next s v =
    by_if Holds (same_status s.status next || (s.is_released && not (same_status next released))) _
      _ (λ kept. v)
      (λ moves.
        let changed = change_status-Holds next s v (neither _ _ moves).0 in
        by_if Holds (same_status next opened) _ _ (λ open_now. (changed.0, (tt, changed.1)))
          (λ other. changed))

pub broadcast_status-Holds :
    (status : SessionStatus) (s : Session) → Holds s → Holds (broadcast_status status s)
broadcast_status-Holds status s v =
    by_option Holds s.term _ _ (λ quiet. v) (λ t e. (v.0, (v.0.tied ∙ e, v.1)))

pub emit_error-Holds :
    (b : Bool) (code : ErrorCode) (s : Session) → Holds s → Holds (emit_error b code s)
emit_error-Holds b code s v =
    by_if Holds b _ _ (λ sent. (v.0, (tt, (tt, v.1)))) (λ local. (v.0, (tt, v.1)))

pub resolve_device-Holds : (d : ResolvedDevice) (s : Session) → Holds s → Holds (resolve_device d s)
resolve_device-Holds d s v =
    by_if Holds (resolves s.device d) _ _ (λ new. (v.0, (tt, v.1))) (λ same. v)

pub on_status-Holds :
    (n : ℕ) (status : SessionStatus) (s : Session) → Holds s → Holds (on_status n status s)
on_status-Holds n status s v =
    by_if Holds (is_value s.supervisor n) _ _
      (λ own. set_status-Holds status _ (broadcast_status-Holds status s v)) (λ old. v)

not_held : (o : Option ℕ) (a b c : Bool) → IsHeld o a b c → a ≡ false → o ≡ none
not_held none a b c h e = refl
not_held (some t) a b c h e = cc (h.0)

-- A tab that does not have the port has no term.
pub no_term : (s : Session) → CoreOf s → s.is_owner ≡ false → s.term ≡ none
no_term s v away = not_held s.term s.is_owner _ _ v.held away

-- The flags may change where there is no term.
pub flags-Core :
    (s : Session) (o r w e : Bool)
    → CoreOf s
    → s.term ≡ none
    → (w ≡ true → e ≡ true)
    → Core s.term s.supervisor o r w e s.stopping s.next_term s.status
        (current s.trace)
        (λ t. goodbyes t s.trace)
        (λ t. claims_of t s.trace)
        (shown s.trace)
flags-Core s o r w e v quiet over = record {
  tied = v.tied;
  paired = v.paired;
  held = subst (λ x. IsHeld x o r w) (sym quiet) tt;
  over = over;
  counted = v.counted;
  once = v.once;
  fresh = v.fresh;
  shows = v.shows;
}

-- `#stopBeingOwner`, whether the tab still has the port and is being released or not.
counted_at :
    (s : Session) (o : Option ℕ) (t : ℕ)
    → CoreOf s
    → s.term ≡ o
    → count t s.stopping + goodbyes t s.trace + one_if (is_value o t) ≡ claims_of t s.trace
counted_at s o t v e =
    subst
      (λ x. count t s.stopping + goodbyes t s.trace + one_if (is_value x t) ≡ claims_of t s.trace) e
      (v.counted t)

pub stop_supervisor-Holds :
    (a b : Option ℕ) (o r : Bool) (s : Session)
    → Holds s
    → s.supervisor ≡ a
    → s.term ≡ b
    → Holds (
        stop_supervisor a b
          (record s { is_owner = o; is_released = r; supervisor = none; term = none }))
stop_supervisor-Holds none none o r s v ea eb = (
  record {
    tied = v.0.tied ∙ eb;
    paired = refl;
    held = tt;
    over = v.0.over;
    counted = λ t. counted_at s none t v.0 eb;
    once = v.0.once;
    fresh = v.0.fresh;
    shows = v.0.shows;
  },
  v.1,
)
stop_supervisor-Holds (some n) (some t) o r s v ea eb =
    let paired : some n ≡ some t = sym ea ∙ v.0.paired ∙ eb in
    (
      record {
        tied = refl;
        paired = refl;
        held = tt;
        over = v.0.over;
        counted = λ u. omega (arith, counted_at s (some t) u v.0 eb);
        once = v.0.once;
        fresh = v.0.fresh;
        shows = v.0.shows;
      },
      (v.0.tied ∙ eb ∙ sym paired, v.1),
    )
stop_supervisor-Holds none (some t) o r s v ea eb = cc (v.0.paired)
stop_supervisor-Holds (some n) none o r s v ea eb = cc (v.0.paired)

pub at_most_once : (b : Bool) (k : ℕ) → (b ≡ true → k ≡ 0) → k ≤ 1 → one_if b + k ≤ 1
at_most_once true k none_yet once = omega (arith, none_yet refl)
at_most_once false k none_yet once = omega (arith, once)

claimed_once :
    (n u : ℕ) (s : Session)
    → CoreOf s
    → claims_of n s.trace ≡ 0
    → one_if (n == u) + claims_of u s.trace ≤ 1
claimed_once n u s v none_yet =
    at_most_once (n == u) _
      (λ same.
        let e : n ≡ u = ground (arith, same) in subst (λ x. claims_of x s.trace ≡ 0) e none_yet)
      (v.once u)

claimed_later :
    (n u : ℕ) (s : Session)
    → CoreOf s
    → n ≡ s.next_term
    → suc n ≤ u
    → one_if (n == u) + claims_of u s.trace ≡ 0
claimed_later n u s v e above =
    let later : claims_of u s.trace ≡ 0 = v.fresh u (omega (arith, e, above)) in
    let other : n == u ≡ false = ground (arith, above) in omega (arith, later, ap one_if other)

-- A new term begins.
pub begin_term-Holds :
    (s : Session)
    → Holds s
    → s.term ≡ none
    → s.is_released ≡ false
    → is_some s.withdrawal ≡ false
    → Holds (begin_term s.next_term (record s { is_owner = true }))
begin_term-Holds s v quiet runs stays =
    let unclaimed : claims_of s.next_term s.trace ≡ 0 = v.0.fresh s.next_term (omega arith) in
    (
      record {
        tied = refl;
        paired = refl;
        held = (refl, runs, stays);
        over = v.0.over;
        counted = λ u. omega (arith, counted_at s none u v.0 quiet);
        once = λ u. claimed_once s.next_term u s v.0 unclaimed;
        fresh = λ u above. claimed_later s.next_term u s v.0 refl above;
        shows = v.0.shows;
      },
      ((unclaimed, v.0.tied ∙ quiet), v.1),
    )
