-- ===== src/Client/Session/Release.antt =====
-- The end of `release` of src/client/configuration-session.ts.
use serial_broker.Prelude.{
  ℕ, ◌+◌, Bool, true, false, ◌&&◌, ◌||◌, ◌==◌, Option, none, some, List, [], ◌∷◌, ◌≡◌, refl, sym,
  ◌∙◌, ap, subst, arith, by_if,
}
use serial_broker.Owner.PortMatcher.{DeviceFilter}
use serial_broker.Client.Session.{
  emit, set_status, stop_supervisor, has_term, drop_term, supervisor_stopped, lose, release,
  is_stopping, leave_bus, leave_slot, end_release, release_from, continue_release,
}
use serial_broker.Client.Session.State.{
  SessionStatus, opened, released, same_status, awaits_stop, awaits_election, has_released,
  SessionSettings, Session, new_session, disposes_terms,
}
use serial_broker.Client.Session.Order.{one_if, count, CoreOf, Holds, new_session-Holds}
use serial_broker.Client.Session.Steps.{release-Holds}
use serial_broker.Client.Session.Ends.{count-drop_term, same_self}
use serial_broker.Client.Session.Histories.{
  Happening, loses, releases, goes_on, has_stopped, step, run, run-Holds,
}

-- What a release waits for: the supervisor of the term, if there is one, has stopped, and the election
-- has let the port go.
abbrev pub ending : Option ℕ → List Happening
ending none = releases ∷ goes_on ∷ loses ∷ goes_on ∷ []
ending (some t) = releases ∷ has_stopped t ∷ goes_on ∷ loses ∷ goes_on ∷ []

is_released_status : (x : SessionStatus) → same_status x released ≡ true → x ≡ released
is_released_status released h = refl
is_released_status SessionStatus.idle h = cc (h)
is_released_status SessionStatus.queued h = cc (h)
is_released_status SessionStatus.awaiting_permission h = cc (h)
is_released_status SessionStatus.connecting h = cc (h)
is_released_status opened h = cc (h)
is_released_status SessionStatus.reconnecting h = cc (h)
is_released_status SessionStatus.failed h = cc (h)

either_same : (a b : Bool) → a || (b && false) ≡ true → a ≡ true
either_same true b h = refl
either_same false true h = h
either_same false false h = h

set_status_released : (s : Session) → (set_status released s).status ≡ released
set_status_released s =
    by_if (λ (x : Session). x.status ≡ released)
      (same_status s.status released || (s.is_released && false)) _ _
      (λ kept. is_released_status s.status (either_same _ _ kept)) (λ moves. refl)

end_release_status : (c : SessionSettings) (s : Session) → (end_release c s).status ≡ released
end_release_status c s =
    set_status_released
      (leave_slot c (leave_bus (emit disposes_terms (record s { has_delayed_answer = false }))))

stop_supervisor_phase :
    (a b : Option ℕ) (s : Session)
    → ((stop_supervisor a b s).release_phase ≡ s.release_phase)
      × ((stop_supervisor a b s).is_owner ≡ s.is_owner)
stop_supervisor_phase none b s = (refl, refl)
stop_supervisor_phase (some n) none s = (refl, refl)
stop_supervisor_phase (some n) (some t) s = (refl, refl)

lose_phase :
    (s : Session) → ((lose s).release_phase ≡ s.release_phase) × ((lose s).is_owner ≡ false)
unfolding lose
lose_phase s =
    by_if (λ (x : Session). (x.release_phase ≡ s.release_phase) × (x.is_owner ≡ false)) s.is_owner _
      _ (λ own. stop_supervisor_phase s.supervisor s.term _) (λ other. (refl, other))

stop_has_ended :
    (c : SessionSettings) (o : Option ℕ) (s : Session)
    → s.release_phase ≡ awaits_stop o
    → is_stopping o s ≡ false
    → (continue_release c s).release_phase ≡ awaits_election
unfolding continue_release
stop_has_ended c o s e ended =
    subst (λ p. (release_from c p s).release_phase ≡ awaits_election) (sym e)
      (by_if (λ (x : Session). x.release_phase ≡ awaits_election) (is_stopping o s) _ _
        (λ waits. cc (waits, ended)) (λ stopped. refl))

election_has_ended :
    (c : SessionSettings) (s : Session)
    → s.release_phase ≡ awaits_election
    → s.is_owner ≡ false
    → ((continue_release c s).status ≡ released)
      × ((continue_release c s).release_phase ≡ has_released)
unfolding continue_release
election_has_ended c s e away =
    subst
      (λ p.
        ((release_from c p s).status ≡ released)
        × ((release_from c p s).release_phase ≡ has_released))
      (sym e)
      (by_if (λ (x : Session). (x.status ≡ released) × (x.release_phase ≡ has_released)) s.is_owner
        _ _ (λ own. cc (own, away)) (λ other. (end_release_status c s, refl)))

abbrev IsDone : Session → Type 0
IsDone s = (s.status ≡ released) × (s.release_phase ≡ has_released)

rest_of_release :
    (c : SessionSettings) (o : Option ℕ) (s : Session)
    → s.release_phase ≡ awaits_stop o
    → is_stopping o s ≡ false
    → IsDone (run c (goes_on ∷ loses ∷ goes_on ∷ []) s)
unfolding run step
rest_of_release c o s e ended =
    let lost = lose_phase (continue_release c s) in
    election_has_ended c (lose (continue_release c s)) (lost.0 ∙ stop_has_ended c o s e ended)
      lost.1

-- A term that is not being stopped.
none_among : (b : Bool) (n : ℕ) (x : Bool) → one_if b + n ≡ 0 → (n ≡ 0 → x ≡ false) → b || x ≡ false
none_among true n x h f = absurd (omega (arith, h))
none_among false n x h f = f (omega (arith, h))

not_stopping : (t : ℕ) (us : List ℕ) → count t us ≡ 0 → has_term t us ≡ false
not_stopping t [] h = refl
not_stopping t (u ∷ us) h = none_among (u == t) (count t us) (has_term t us) h (not_stopping t us)

stops_once :
    (t : ℕ) (s : Session)
    → CoreOf s
    → has_term t s.stopping ≡ true
    → has_term t (drop_term t s.stopping) ≡ false
stops_once t s v here = not_stopping t _ (
    omega
      (arith, count-drop_term t t s.stopping here, ap one_if (same_self t), v.counted t, v.once t))

supervisor_has_stopped :
    (t : ℕ) (s : Session)
    → CoreOf s
    → has_term t s.stopping ≡ true
    → ((supervisor_stopped t s).release_phase ≡ s.release_phase)
      × (has_term t (supervisor_stopped t s).stopping ≡ false)
unfolding supervisor_stopped
supervisor_has_stopped t s v here =
    by_if (λ (x : Session). (x.release_phase ≡ s.release_phase) × (has_term t x.stopping ≡ false))
      (has_term t s.stopping) _ _ (λ stops. (refl, stops_once t s v here))
      (λ other. cc (other, here))

none_missing : (a b : Bool) → a ≡ true → a || b ≡ true
none_missing true b h = refl
none_missing false b h = cc (h)

stop_supervisor_term :
    (a b : Option ℕ) (t : ℕ) (s : Session)
    → a ≡ b
    → b ≡ some t
    → has_term t (stop_supervisor a b s).stopping ≡ true
stop_supervisor_term a none t s e f = cc (f)
stop_supervisor_term none (some u) t s e f = cc (e)
stop_supervisor_term (some n) (some u) t s e f =
    let same : u ≡ t = cc (f) in
    none_missing (u == t) (has_term t s.stopping) (ap (λ x. x == t) same ∙ same_self t)

begin_release :
    (s : Session)
    → CoreOf s
    → s.is_released ≡ false
    → ((release s).release_phase ≡ awaits_stop s.term)
      × ((t : ℕ) → s.term ≡ some t → has_term t (release s).stopping ≡ true)
unfolding release
begin_release s v runs =
    by_if
      (λ (x : Session).
        (x.release_phase ≡ awaits_stop s.term)
        × ((t : ℕ) → s.term ≡ some t → has_term t x.stopping ≡ true))
      s.is_released _ _ (λ gone. cc (gone, runs))
      (λ here. (refl, λ t e. stop_supervisor_term s.supervisor s.term t _ v.paired e))

ending-IsDone :
    (c : SessionSettings) (o : Option ℕ) (s : Session)
    → Holds s
    → s.is_released ≡ false
    → s.term ≡ o
    → IsDone (run c (ending o) s)
unfolding run step
ending-IsDone c none s v runs e =
    rest_of_release c none (release s) ((begin_release s v.0 runs).0 ∙ ap awaits_stop e) refl
ending-IsDone c (some t) s v runs e =
    let begun = begin_release s v.0 runs in
    let stopped = supervisor_has_stopped t (release s) (release-Holds s v).0 (begun.1 t e) in
    rest_of_release c (some t) (supervisor_stopped t (release s))
      (stopped.0 ∙ begun.0 ∙ ap awaits_stop e) stopped.1

-- Wherever a session has come to that was not released, a release comes to its end, and the status to
-- `released`, once the supervisor of its term, if it has one, has stopped and the election has let the
-- port go.
pub run-ending_released :
    (c : SessionSettings) (hs : List Happening) (device : DeviceFilter)
    → (run c hs (new_session device)).is_released ≡ false
    → ((run c (ending (run c hs (new_session device)).term) (run c hs (new_session device))).status
        ≡ released)
      × ((run c
            (ending (run c hs (new_session device)).term)
            (run c hs (new_session device))).release_phase
          ≡ has_released)
run-ending_released c hs device runs =
    let s : Session = run c hs (new_session device) in
    ending-IsDone c s.term s (run-Holds c hs _ (new_session-Holds device)) runs refl
