-- ===== src/Client/Session/Silence.antt =====
-- Histories of a session (src/client/configuration-session.ts) that is released or has withdrawn.
use serial_broker.Prelude.{
  ℕ, Bool, true, false, not, ◌&&◌, ◌||◌, Option, none, some, List, [], ◌∷◌, if◌then◌else◌, is_some,
  ◌≡◌, refl, ◌∙◌, by_if,
}
use serial_broker.Core.Errors.{ErrorCode}
use serial_broker.Owner.PortMatcher.{DeviceFilter, ResolvedDevice}
use serial_broker.Client.Session.{
  stays_failed, lose, term_ended, receive, report_error, is_stopping, leave_slot, end_release,
  release_from, continue_release,
}
use serial_broker.Client.Session.Inbox.{
  resolves, apply_status, follow_choice, apply_status_request, answer_late,
}
use serial_broker.Client.Session.State.{
  reconnecting, released, ReleasePhase, not_releasing, awaits_stop, awaits_election, has_released,
  SessionSettings, Session, StatusMessage, new_session,
}
use serial_broker.Client.Session.Order.{spoken, new_session-Holds}
use serial_broker.Client.Session.Keeps.{neither}
use serial_broker.Client.Session.Histories.{
  Happening, starts, joins, reconnects, retries, acquires, loses, releases, goes_on, answer_due,
  has_stopped, has_status, has_ended, has_received, has_failed, hears_status, hears_request, step,
  run, run-Holds,
}
use serial_broker.Client.Session.Order.{IsHeld, Holds}
use serial_broker.Client.Session.Over.{
  IsOver, set_status-IsOver, broadcast_status-IsOver, stop_supervisor-IsOver, resolve_device-IsOver,
  release-IsOver, join-IsOver, start-IsOver, handle_bus_reconnected-IsOver, retry-IsOver,
  supervisor_status-IsOver, is_election_stopped-IsOver, supervisor_stopped-IsOver, acquire-IsOver,
}

lose-IsOver : (k : ℕ) (s : Session) → IsOver k s → IsOver k (lose s)
unfolding lose
lose-IsOver k s v =
    by_if (IsOver k) s.is_owner _ _
      (λ own. stop_supervisor-IsOver k s.supervisor s.term (record s { is_owner = false }) v)
      (λ other. v)

term_ended-IsOver :
    (k : ℕ) (c : SessionSettings) (b : Bool) (s : Session)
    → IsOver k s
    → IsOver k (term_ended c b s)
unfolding term_ended
term_ended-IsOver k c b s v =
    by_if (IsOver k) (b && not s.is_owner && not s.is_released && not (stays_failed c s)) _ _
      (λ lost. set_status-IsOver k reconnecting s v) (λ other. v)

receive-IsOver : (k : ℕ) (b : Bool) (s : Session) → IsOver k s → IsOver k (receive b s)
unfolding receive
receive-IsOver k b s v = by_if (IsOver k) b _ _ (λ own. v) (λ other. v)

report_error-IsOver :
    (k : ℕ) (b : Bool) (code : ErrorCode) (s : Session)
    → IsOver k s
    → IsOver k (report_error b code s)
unfolding report_error
report_error-IsOver k b code s v = by_if (IsOver k) b _ _ (λ sent. v) (λ local. v)

leave_slot-IsOver :
    (k : ℕ) (c : SessionSettings) (s : Session) → IsOver k s → IsOver k (leave_slot c s)
leave_slot-IsOver k c s v = by_if (IsOver k) (is_some c.max_tabs) _ _ (λ on. v) (λ off. v)

end_release-IsOver :
    (k : ℕ) (c : SessionSettings) (s : Session) → IsOver k s → IsOver k (end_release c s)
end_release-IsOver k c s v = set_status-IsOver k released _ (
    leave_slot-IsOver k c _
      (by_if (IsOver k) (s.is_joined && not (is_some s.withdrawal)) _ _ (λ on. v) (λ off. v)))

release_from-IsOver :
    (k : ℕ) (c : SessionSettings) (p : ReleasePhase) (s : Session)
    → IsOver k s
    → IsOver k (release_from c p s)
release_from-IsOver k c not_releasing s v = v
release_from-IsOver k c has_released s v = v
release_from-IsOver k c awaits_election s v =
    by_if (IsOver k) s.is_owner _ _ (λ own. v) (λ other. end_release-IsOver k c s v)
release_from-IsOver k c (awaits_stop t) s v =
    by_if (IsOver k) (is_stopping t s) _ _ (λ waits. v) (λ ended. is_election_stopped-IsOver k s v)

continue_release-IsOver :
    (k : ℕ) (c : SessionSettings) (s : Session) → IsOver k s → IsOver k (continue_release c s)
unfolding continue_release
continue_release-IsOver k c s v = release_from-IsOver k c s.release_phase s v

or_true : (a b : Bool) → b ≡ true → a || b ≡ true
or_true true b h = refl
or_true false b h = h

withdrawn_core :
    (k : ℕ) (m : Option ℕ) (s : Session)
    → IsOver k s
    → IsOver k
        (record s { withdrawal = some m; has_delayed_answer = false; is_election_stopped = true })
withdrawn_core k m s v = record {
  gone = or_true _ _ refl;
  stops = λ h. refl;
  quiet = v.quiet;
  alone = v.alone;
  heard = v.heard;
}

apply_status-IsOver :
    (k : ℕ) (c : SessionSettings) (m : StatusMessage) (s : Session)
    → IsOver k s
    → IsOver k (apply_status c m s)
unfolding apply_status
apply_status-IsOver k c m s v =
    by_if (IsOver k) (s.is_released || is_some s.withdrawal || s.is_owner) _ _ (λ off. v)
      (λ on.
        let both : s.is_released || is_some s.withdrawal ≡ false =
          (neither (s.is_released || is_some s.withdrawal) s.is_owner on).0 in
        cc (both, v.gone))

follow_choice-IsOver :
    (k : ℕ) (o : Option ℕ) (d : Option ResolvedDevice) (s : Session)
    → IsOver k s
    → IsOver k (follow_choice o d s)
follow_choice-IsOver k none d s v = v
follow_choice-IsOver k (some n) none s v = v
follow_choice-IsOver k (some n) (some d) s v =
    by_if (IsOver k) (resolves s.device d) _ _ (λ new. resolve_device-IsOver k d s v) (λ same. v)

apply_status_request-IsOver :
    (k : ℕ) (is_retry : Bool) (d : Option ResolvedDevice) (b : Bool) (s : Session)
    → IsOver k s
    → IsOver k (apply_status_request is_retry d b s)
unfolding apply_status_request
apply_status_request-IsOver k is_retry d b s v =
    let asked : Session = if is_retry then follow_choice s.supervisor d s else s in
    let w : IsOver k asked =
      by_if (IsOver k) is_retry _ _ (λ retries. follow_choice-IsOver k s.supervisor d s v)
        (λ asks. v) in
    by_if (IsOver k) (not asked.is_owner) _ _ (λ other. w)
      (λ own.
        by_if (IsOver k) b _ _ (λ now. broadcast_status-IsOver k asked.status asked w) (λ later. w))

answer_late-IsOver : (k : ℕ) (s : Session) → IsOver k s → IsOver k (answer_late s)
unfolding answer_late
answer_late-IsOver k s v =
    by_if (IsOver k) (not s.has_delayed_answer) _ _ (λ idle_now. v)
      (λ due.
        by_if (IsOver k) (s.is_released || not s.is_owner) _ _ (λ away. v)
          (λ own. broadcast_status-IsOver k s.status (record s { has_delayed_answer = false }) v))

step-IsOver :
    (k : ℕ) (c : SessionSettings) (h : Happening) (s : Session) → IsOver k s → IsOver k (step c h s)
unfolding step
step-IsOver k c starts s v = start-IsOver k c s v
step-IsOver k c joins s v = join-IsOver k s v
step-IsOver k c reconnects s v = handle_bus_reconnected-IsOver k s v
step-IsOver k c retries s v = retry-IsOver k s v
step-IsOver k c acquires s v = acquire-IsOver k c s v
step-IsOver k c loses s v = lose-IsOver k s v
step-IsOver k c releases s v = release-IsOver k s v
step-IsOver k c goes_on s v = continue_release-IsOver k c s v
step-IsOver k c answer_due s v = answer_late-IsOver k s v
step-IsOver k c (has_stopped t) s v = supervisor_stopped-IsOver k t s v
step-IsOver k c (has_status n x) s v = supervisor_status-IsOver k n x s v
step-IsOver k c (has_ended b) s v = term_ended-IsOver k c b s v
step-IsOver k c (has_received b) s v = receive-IsOver k b s v
step-IsOver k c (has_failed b code) s v = report_error-IsOver k b code s v
step-IsOver k c (hears_status m) s v = apply_status-IsOver k c m s v
step-IsOver k c (hears_request is_retry d b) s v = apply_status_request-IsOver k is_retry d b s v

run-IsOver :
    (k : ℕ) (c : SessionSettings) (hs : List Happening) (s : Session)
    → IsOver k s
    → IsOver k (run c hs s)
unfolding run
run-IsOver k c [] s v = v
run-IsOver k c (h ∷ hs) s v = run-IsOver k c hs _ (step-IsOver k c h s v)

none_held : (o : Option ℕ) (a r w : Bool) → IsHeld o a r w → r || w ≡ true → o ≡ none
none_held none a r w h e = refl
none_held (some t) a true w h e = cc (h.1)
none_held (some t) a false w h e = cc (e, h.2)

gone-IsOver :
    (s : Session)
    → Holds s
    → s.is_released || is_some s.withdrawal ≡ true
    → IsOver (spoken s.trace) s
gone-IsOver s v gone =
    let quiet : s.term ≡ none =
      none_held s.term _ s.is_released (is_some s.withdrawal) v.0.held gone in
    record {
      gone = gone;
      stops = v.0.over;
      quiet = quiet;
      alone = v.0.paired ∙ quiet;
      heard = refl;
    }

-- From where a session was told to release, or has withdrawn, whatever happens, it stays so, claims no
-- term, says no status and starts no supervisor.
pub spoken-run_silent :
    (c : SessionSettings) (hs ks : List Happening) (device : DeviceFilter)
    → (run c hs (new_session device)).is_released
        || is_some (run c hs (new_session device)).withdrawal
      ≡ true
    → (spoken (run c ks (run c hs (new_session device))).trace
        ≡ spoken (run c hs (new_session device)).trace)
      × ((run c ks (run c hs (new_session device))).is_released
            || is_some (run c ks (run c hs (new_session device))).withdrawal
          ≡ true)
spoken-run_silent c hs ks device gone =
    let s : Session = run c hs (new_session device) in
    let ended =
      run-IsOver (spoken s.trace) c ks s
        (gone-IsOver s (run-Holds c hs _ (new_session-Holds device)) gone) in
    (ended.heard, ended.gone)
