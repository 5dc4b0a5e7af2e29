-- ===== src/Client/Session/Terms.antt =====
-- What an operation does to the term of a session (src/client/configuration-session.ts).
use serial_broker.Prelude.{
  ℕ, Bool, true, false, not, ◌||◌, Option, none, some, ◌≡◌, refl, by_if, if◌then◌else◌,
}
use serial_broker.Client.Session.{emit, stop_supervisor, acquire, release, stays_failed, lose}
use serial_broker.Client.Session.State.{failed, SessionSettings, Session, fails_writes}
use serial_broker.Client.Session.Order.{Holds}
use serial_broker.Client.Session.Keeps.{neither}
use serial_broker.Client.Session.Histories.{
  Happening, starts, joins, reconnects, retries, acquires, loses, releases, goes_on, answer_due,
  has_stopped, has_status, has_ended, has_received, has_failed, hears_status, hears_request, step,
}
use serial_broker.Prelude.{suc, ◌⊎◌, inl, inr}
use serial_broker.Client.Session.{begin_term, start_term}
use serial_broker.Client.Session.State.{starts_supervisor, connecting}
use serial_broker.Client.Session.Order.{Holds}
use serial_broker.Client.Session.Keeps.{no_term}
use serial_broker.Client.Session.Kept.{
  IsKept, join-IsKept, start-IsKept, handle_bus_reconnected-IsKept, retry-IsKept, on_status-IsKept,
  supervisor_status-IsKept, supervisor_stopped-IsKept, term_ended-IsKept, receive-IsKept,
  report_error-IsKept, continue_release-IsKept, apply_status-IsKept, apply_status_request-IsKept,
  answer_late-IsKept,
}

-- Whether the session stops being owner.
abbrev pub stops_owner : Happening → Session → Bool
stops_owner loses s = s.is_owner
stops_owner releases s = not s.is_released
stops_owner _ s = false

abbrev pub IsNext : Bool → Session → Session → Type 0
IsNext true o s = (s.term ≡ none) × (s.next_term ≡ o.next_term)
IsNext false o s =
    IsKept o s ⊎ (o.term ≡ none) × (s.term ≡ some o.next_term) × (s.next_term ≡ suc o.next_term)

stop_supervisor-IsNext :
    (a b : Option ℕ) (o s : Session)
    → s.next_term ≡ o.next_term
    → IsNext true o (stop_supervisor a b (record s { supervisor = none; term = none }))
stop_supervisor-IsNext none b o s e = (refl, e)
stop_supervisor-IsNext (some n) none o s e = (refl, e)
stop_supervisor-IsNext (some n) (some t) o s e = (refl, e)

stop_or_keep : (b : Bool) (o s : Session) → IsNext true o s → IsNext b o (if b then s else o)
stop_or_keep true o s h = h
stop_or_keep false o s h = inl (refl, refl)

keep_or_stop : (b : Bool) (o s : Session) → IsNext true o s → IsNext (not b) o (if b then o else s)
keep_or_stop true o s h = inl (refl, refl)
keep_or_stop false o s h = h

lose-IsNext : (s : Session) → IsNext s.is_owner s (lose s)
unfolding lose
lose-IsNext s =
    stop_or_keep s.is_owner s _
      (stop_supervisor-IsNext s.supervisor s.term s (record s { is_owner = false }) refl)

release-IsNext : (s : Session) → IsNext (not s.is_released) s (release s)
unfolding release
release-IsNext s = keep_or_stop s.is_released s _ (
    stop_supervisor-IsNext s.supervisor s.term s
      (emit fails_writes (record s { is_released = true })) refl)

start_term-IsNext :
    (c : SessionSettings) (s : Session)
    → s.term ≡ none
    → IsNext false s (start_term c s.next_term (record s { is_owner = true }))
start_term-IsNext c s quiet =
    let begun : Session =
      emit (starts_supervisor s.next_term (stays_failed c s))
        (begin_term s.next_term (record s { is_owner = true })) in
    let kept =
      on_status-IsKept begun s.next_term (if stays_failed c s then failed else connecting) begun
        (refl, refl) in
    inr (quiet, kept.0, kept.1)

acquire-IsNext : (c : SessionSettings) (s : Session) → Holds s → IsNext false s (acquire c s)
unfolding acquire
acquire-IsNext c s v =
    by_if (IsNext false s) (s.is_owner || s.is_election_stopped || not s.is_joined) _ _
      (λ off. inl (refl, refl))
      (λ on.
        let both = neither s.is_owner s.is_election_stopped (neither _ (not s.is_joined) on).0 in
        by_if (IsNext false s) s.is_released _ _ (λ gone. inl (refl, refl))
          (λ here. start_term-IsNext c s (no_term s v.0 both.0)))

pub step-IsNext :
    (c : SessionSettings) (h : Happening) (s : Session)
    → Holds s
    → IsNext (stops_owner h s) s (step c h s)
unfolding step
step-IsNext c starts s v = inl (start-IsKept s c s (refl, refl))
step-IsNext c joins s v = inl (join-IsKept s s (refl, refl))
step-IsNext c reconnects s v = inl (handle_bus_reconnected-IsKept s s (refl, refl))
step-IsNext c retries s v = inl (retry-IsKept s s (refl, refl))
step-IsNext c acquires s v = acquire-IsNext c s v
step-IsNext c loses s v = lose-IsNext s
step-IsNext c releases s v = release-IsNext s
step-IsNext c goes_on s v = inl (continue_release-IsKept s c s (refl, refl))
step-IsNext c answer_due s v = inl (answer_late-IsKept s s (refl, refl))
step-IsNext c (has_stopped t) s v = inl (supervisor_stopped-IsKept s t s (refl, refl))
step-IsNext c (has_status n x) s v = inl (supervisor_status-IsKept s n x s (refl, refl))
step-IsNext c (has_ended b) s v = inl (term_ended-IsKept s c b s (refl, refl))
step-IsNext c (has_received b) s v = inl (receive-IsKept s b s (refl, refl))
step-IsNext c (has_failed b code) s v = inl (report_error-IsKept s b code s (refl, refl))
step-IsNext c (hears_status m) s v = inl (apply_status-IsKept s c m s (refl, refl))
step-IsNext c (hears_request is_retry d b) s v =
    inl (apply_status_request-IsKept s is_retry d b s (refl, refl))
