-- ===== src/Client/Session/Ends.antt =====
-- The ends of terms and of a session (src/client/configuration-session.ts), and the beginning of a term,
-- against the invariant.
use serial_broker.Prelude.{
  ℕ, ◌+◌, ◌≤◌, Bool, true, false, not, ◌&&◌, ◌||◌, ◌==◌, Option, none, some, List, [], ◌∷◌,
  if◌then◌else◌, is_some, is_value, ◌≡◌, refl, ◌∙◌, ap, arith, by_if,
}
use serial_broker.Core.Errors.{ErrorCode}
use serial_broker.Owner.PortMatcher.{ResolvedDevice}
use serial_broker.Client.Session.{
  emit, has_term, drop_term, supervisor_stopped, stays_failed, begin_term, start_term, acquire,
  is_stopping, leave_bus, leave_slot, end_release, release_from, continue_release,
}
use serial_broker.Client.Session.Inbox.{withdraw, same_max_tabs, note_device, apply_status}
use serial_broker.Client.Session.State.{
  SessionStatus, connecting, opened, failed, released, same_status, ReleasePhase, not_releasing,
  awaits_stop, awaits_election, has_released, SessionSettings, Session, StatusMessage,
  starts_supervisor, disposes_terms,
}
use serial_broker.Client.Session.Order.{
  one_if, current, claims_of, goodbyes, shown, count, Core, CoreOf, Holds,
}
use serial_broker.Client.Session.Keeps.{
  neither, set_status-Holds, emit_error-Holds, resolve_device-Holds, on_status-Holds, no_term,
  flags-Core, begin_term-Holds,
}

count_dropped :
    (b : Bool) (x : ℕ) (t u : ℕ) (us rest : List ℕ)
    → b ≡ (x == t)
    → (b ≡ false → count u rest + one_if (t == u) ≡ count u us)
    → count u (if b then us else x ∷ rest) + one_if (t == u) ≡ one_if (x == u) + count u us
count_dropped true x t u us rest e h =
    let same : x ≡ t = ground (arith, e) in omega (arith, ap (λ y. one_if (y == u)) same)
count_dropped false x t u us rest e h = omega (arith, h refl)

has_later : (a b : Bool) → a || b ≡ true → a ≡ false → b ≡ true
has_later true b h e = cc
has_later false b h e = h

pub count-drop_term :
    (t u : ℕ) (us : List ℕ)
    → has_term t us ≡ true
    → count u (drop_term t us) + one_if (t == u) ≡ count u us
count-drop_term t u [] h = cc
count-drop_term t u (x ∷ us) h =
    count_dropped (x == t) x t u us (drop_term t us) refl
      (λ other. count-drop_term t u us (has_later _ _ h other))

pub same_self : (t : ℕ) → t == t ≡ true
same_self t = ground arith

zero_if : (b : Bool) → one_if b ≡ 0 → b ≡ false
zero_if true h = cc (h)
zero_if false h = refl

-- What the invariant says of a term whose supervisor is being stopped.
goodbye_due :
    (t : ℕ) (s : Session)
    → CoreOf s
    → has_term t s.stopping ≡ true
    → (goodbyes t s.trace ≡ 0) × (claims_of t s.trace ≡ 1) × (is_value (current s.trace) t ≡ false)
goodbye_due t s v here =
    let dropped : count t (drop_term t s.stopping) + one_if (t == t) ≡ count t s.stopping =
      count-drop_term t t s.stopping here in
    let one : one_if (t == t) ≡ 1 = ap one_if (same_self t) in
    let sum : count t s.stopping + goodbyes t s.trace + one_if (is_value s.term t)
        ≡ claims_of t s.trace =
      v.counted t in
    let most : claims_of t s.trace ≤ 1 = v.once t in
    let quiet : one_if (is_value s.term t) ≡ 0 = omega (arith, dropped, one, sum, most) in
    (
      omega (arith, dropped, one, sum, most),
      omega (arith, dropped, one, sum, most),
      ap (λ o. is_value o t) v.tied ∙ zero_if _ quiet,
    )

supervisor_stopped-Core :
    (t : ℕ) (s : Session)
    → CoreOf s
    → has_term t s.stopping ≡ true
    → Core s.term s.supervisor s.is_owner s.is_released
        (is_some s.withdrawal)
        true
        (drop_term t s.stopping)
        s.next_term
        s.status
        (current s.trace)
        (λ u. one_if (t == u) + goodbyes u s.trace)
        (λ u. claims_of u s.trace)
        (shown s.trace)
supervisor_stopped-Core t s v here = record {
  tied = v.tied;
  paired = v.paired;
  held = v.held;
  over = λ h. refl;
  counted = λ u. omega (arith, count-drop_term t u s.stopping here, v.counted u);
  once = v.once;
  fresh = v.fresh;
  shows = v.shows;
}

pub supervisor_stopped-Holds : (t : ℕ) (s : Session) → Holds s → Holds (supervisor_stopped t s)
unfolding supervisor_stopped
supervisor_stopped-Holds t s v =
    by_if Holds (has_term t s.stopping) _ _
      (λ here. (supervisor_stopped-Core t s v.0 here, (tt, (tt, (goodbye_due t s v.0 here, v.1)))))
      (λ other. v)

not_yet : (a b : Bool) → (a ≡ true → b ≡ true) → b ≡ false → a ≡ false
not_yet true b h e = cc (h refl)
not_yet false b h e = refl

start_term-Holds :
    (c : SessionSettings) (s : Session)
    → Holds s
    → s.term ≡ none
    → s.is_released ≡ false
    → is_some s.withdrawal ≡ false
    → Holds (start_term c s.next_term (record s { is_owner = true }))
start_term-Holds c s v quiet runs stays =
    let begun = begin_term-Holds s v quiet runs stays in
    let says : SessionStatus = if stays_failed c s then failed else connecting in
    let told =
      on_status-Holds s.next_term says
        (emit (starts_supervisor s.next_term (stays_failed c s))
          (begin_term s.next_term (record s { is_owner = true })))
        (begun.0, (refl, begun.1)) in
    (told.0, (tt, told.1))

pub acquire-Holds : (c : SessionSettings) (s : Session) → Holds s → Holds (acquire c s)
unfolding acquire
acquire-Holds c s v =
    by_if Holds (s.is_owner || s.is_election_stopped || not s.is_joined) _ _ (λ off. v)
      (λ on.
        let both = neither s.is_owner s.is_election_stopped (neither _ (not s.is_joined) on).0 in
        let away : s.is_owner ≡ false = both.0 in
        let runs : s.is_election_stopped ≡ false = both.1 in
        let quiet : s.term ≡ none = no_term s v.0 away in
        by_if Holds s.is_released _ _
          (λ gone. (
            flags-Core s true s.is_released (is_some s.withdrawal) s.is_election_stopped v.0 quiet
                v.0.over,
            v.1,
          ))
          (λ here. start_term-Holds c s v quiet here (not_yet _ _ v.0.over runs)))

leave_bus-Holds : (s : Session) → Holds s → Holds (leave_bus s)
leave_bus-Holds s v =
    by_if Holds (s.is_joined && not (is_some s.withdrawal)) _ _ (λ on. (v.0, (tt, v.1))) (λ off. v)

leave_slot-Holds : (c : SessionSettings) (s : Session) → Holds s → Holds (leave_slot c s)
leave_slot-Holds c s v = by_if Holds (is_some c.max_tabs) _ _ (λ on. (v.0, (tt, v.1))) (λ off. v)

end_release-Holds : (c : SessionSettings) (s : Session) → Holds s → Holds (end_release c s)
end_release-Holds c s v = set_status-Holds released _ (
    leave_slot-Holds c _ (
      leave_bus-Holds (emit disposes_terms (record s { has_delayed_answer = false }))
        (v.0, (tt, v.1))))

is_election_stopped-CoreOf :
    (s : Session)
    → CoreOf s
    → CoreOf (record s { is_election_stopped = true; release_phase = awaits_election })
is_election_stopped-CoreOf s v = record {
  tied = v.tied;
  paired = v.paired;
  held = v.held;
  over = λ h. refl;
  counted = v.counted;
  once = v.once;
  fresh = v.fresh;
  shows = v.shows;
}

release_from-Holds :
    (c : SessionSettings) (p : ReleasePhase) (s : Session) → Holds s → Holds (release_from c p s)
release_from-Holds c not_releasing s v = v
release_from-Holds c has_released s v = v
release_from-Holds c awaits_election s v =
    by_if Holds s.is_owner _ _ (λ own. v) (λ other. end_release-Holds c s v)
release_from-Holds c (awaits_stop t) s v =
    by_if Holds (is_stopping t s) _ _ (λ waits. v)
      (λ ended. (is_election_stopped-CoreOf s v.0, (tt, v.1)))

pub continue_release-Holds :
    (c : SessionSettings) (s : Session) → Holds s → Holds (continue_release c s)
unfolding continue_release
continue_release-Holds c s v = release_from-Holds c s.release_phase s v

withdraw-Holds :
    (c : SessionSettings) (m : Option ℕ) (s : Session)
    → Holds s
    → s.is_owner ≡ false
    → Holds (withdraw c m s)
withdraw-Holds c m s v away =
    let gone : Session = record s {
      withdrawal = some m;
      has_delayed_answer = false;
      is_election_stopped = true;
    } in
    let quiet : s.term ≡ none = no_term s v.0 away in
    let told =
      emit_error-Holds false ErrorCode.configuration_conflict gone
        (flags-Core s s.is_owner s.is_released true true v.0 quiet (λ h. refl), v.1) in
    set_status-Holds failed _ (leave_slot-Holds c _ (told.0, (tt, (tt, (tt, (tt, told.1))))))

note_device-Holds : (d : Option ResolvedDevice) (s : Session) → Holds s → Holds (note_device d s)
note_device-Holds none s v = v
note_device-Holds (some d) s v = resolve_device-Holds d s v

pub apply_status-Holds :
    (c : SessionSettings) (m : StatusMessage) (s : Session) → Holds s → Holds (apply_status c m s)
unfolding apply_status
apply_status-Holds c m s v =
    by_if Holds (s.is_released || is_some s.withdrawal || s.is_owner) _ _ (λ off. v)
      (λ on.
        let away : s.is_owner ≡ false = (neither (s.is_released || is_some s.withdrawal) _ on).1 in
        by_if Holds (not (same_max_tabs m.max_tabs c.max_tabs)) _ _
          (λ conflict. withdraw-Holds c m.max_tabs s v away)
          (λ agreed.
            let noted = note_device-Holds m.device s v in
            set_status-Holds m.status _ (
              by_if Holds (same_status m.status opened) _ _ (λ open_now. (noted.0, (tt, noted.1)))
                (λ other. noted))))
