-- ===== src/Client/Session/Over.antt =====
-- The operations of a session (src/client/configuration-session.ts) that is released or has withdrawn.
use serial_broker.Prelude.{
  ℕ, Bool, true, false, not, ◌&&◌, ◌||◌, Option, none, some, is_some, is_value, ◌≡◌, refl, ap,
  by_if, by_option,
}
use serial_broker.Owner.PortMatcher.{ResolvedDevice}
use serial_broker.Client.Session.{
  emit, set_status, broadcast_status, stop_supervisor, join, start, handle_bus_reconnected,
  retry_part, retry, has_term, supervisor_stopped, supervisor_status, acquire, release,
}
use serial_broker.Client.Session.Inbox.{resolves, resolve_device}
use serial_broker.Client.Session.State.{
  SessionStatus, idle, queued, opened, failed, released, same_status, SessionSettings, Session,
  fails_writes,
}
use serial_broker.Client.Session.Order.{spoken}
use serial_broker.Client.Session.Keeps.{neither}

-- It is over, with no term, and was heard `k` times.
pub record Over (k : ℕ) (is_released is_withdrawn is_election_stopped : Bool)
    (term supervisor : Option ℕ) (now : ℕ) : Type 0 where
  pub gone : is_released || is_withdrawn ≡ true
  pub stops : is_withdrawn ≡ true → is_election_stopped ≡ true
  pub quiet : term ≡ none
  pub alone : supervisor ≡ none
  pub heard : now ≡ k

abbrev pub IsOver : ℕ → Session → Type 0
IsOver k s =
    Over k s.is_released (is_some s.withdrawal) s.is_election_stopped s.term s.supervisor
      (spoken s.trace)

-- The parts of the operations.
pub set_status-IsOver :
    (k : ℕ) (x : SessionStatus) (s : Session) → IsOver k s → IsOver k (set_status x s)
set_status-IsOver k x s v =
    by_if (IsOver k) (same_status s.status x || (s.is_released && not (same_status x released))) _ _
      (λ kept. v)
      (λ moves. by_if (IsOver k) (same_status x opened) _ _ (λ open_now. v) (λ other. v))

pub broadcast_status-IsOver :
    (k : ℕ) (x : SessionStatus) (s : Session) → IsOver k s → IsOver k (broadcast_status x s)
broadcast_status-IsOver k x s v =
    by_option (IsOver k) s.term _ _ (λ quiet. v) (λ t e. cc (e, v.quiet))

pub stop_supervisor-IsOver :
    (k : ℕ) (a b : Option ℕ) (s : Session)
    → IsOver k s
    → IsOver k (stop_supervisor a b (record s { supervisor = none; term = none }))
stop_supervisor-IsOver k none b s v = record {
  gone = v.gone;
  stops = v.stops;
  quiet = refl;
  alone = refl;
  heard = v.heard;
}
stop_supervisor-IsOver k (some n) none s v = record {
  gone = v.gone;
  stops = v.stops;
  quiet = refl;
  alone = refl;
  heard = v.heard;
}
stop_supervisor-IsOver k (some n) (some t) s v = record {
  gone = v.gone;
  stops = v.stops;
  quiet = refl;
  alone = refl;
  heard = v.heard;
}

pub resolve_device-IsOver :
    (k : ℕ) (d : ResolvedDevice) (s : Session) → IsOver k s → IsOver k (resolve_device d s)
resolve_device-IsOver k d s v = by_if (IsOver k) (resolves s.device d) _ _ (λ new. v) (λ same. v)

no_supervisor : (k n : ℕ) (s : Session) → IsOver k s → is_value s.supervisor n ≡ false
no_supervisor k n s v = ap (λ o. is_value o n) v.alone

-- `release` once more, or of a tab that has withdrawn.
released_core :
    (k : ℕ) (s : Session)
    → IsOver k s
    → IsOver k (emit fails_writes (record s { is_released = true }))
released_core k s v = record {
  gone = refl;
  stops = v.stops;
  quiet = v.quiet;
  alone = v.alone;
  heard = v.heard;
}

pub release-IsOver : (k : ℕ) (s : Session) → IsOver k s → IsOver k (release s)
unfolding release
release-IsOver k s v =
    by_if (IsOver k) s.is_released _ _ (λ again. v)
      (λ first. stop_supervisor-IsOver k s.supervisor s.term _ (released_core k s v))

pub join-IsOver : (k : ℕ) (s : Session) → IsOver k s → IsOver k (join s)
unfolding join
join-IsOver k s v =
    by_if (IsOver k) (s.is_released || s.is_joined) _ _ (λ done. v)
      (λ first.
        by_if (IsOver k) (same_status s.status queued) _ _
          (λ waits. set_status-IsOver k idle (record s { is_joined = true }) v) (λ other. v))

pub start-IsOver : (k : ℕ) (c : SessionSettings) (s : Session) → IsOver k s → IsOver k (start c s)
unfolding start
start-IsOver k c s v =
    by_if (IsOver k) (is_some c.max_tabs) _ _ (λ limited. set_status-IsOver k queued s v)
      (λ free. join-IsOver k s v)

pub handle_bus_reconnected-IsOver :
    (k : ℕ) (s : Session) → IsOver k s → IsOver k (handle_bus_reconnected s)
unfolding handle_bus_reconnected
handle_bus_reconnected-IsOver k s v =
    by_if (IsOver k) (s.is_released || not s.is_joined || is_some s.withdrawal) _ _ (λ off. v)
      (λ on.
        by_if (IsOver k) s.is_owner _ _
          (λ own. broadcast_status-IsOver k s.status (record s { after_gap = true }) v)
          (λ other. v))

pub retry_part-IsOver :
    (k : ℕ) (o : Option ℕ) (s : Session) → IsOver k s → IsOver k (retry_part o s)
retry_part-IsOver k (some n) s v = v
retry_part-IsOver k none s v =
    by_if (IsOver k) (same_status s.status failed) _ _ (λ gave_up. v) (λ other. v)

pub retry-IsOver : (k : ℕ) (s : Session) → IsOver k s → IsOver k (retry s)
unfolding retry
retry-IsOver k s v =
    by_if (IsOver k) (is_some s.withdrawal) _ _ (λ gone. v)
      (λ stays. retry_part-IsOver k s.supervisor s v)

pub supervisor_status-IsOver :
    (k n : ℕ) (x : SessionStatus) (s : Session) → IsOver k s → IsOver k (supervisor_status n x s)
unfolding supervisor_status
supervisor_status-IsOver k n x s v =
    by_if (IsOver k) (is_value s.supervisor n) _ _ (λ own. cc (own, no_supervisor k n s v))
      (λ old. v)

pub is_election_stopped-IsOver :
    (k : ℕ) (s : Session) → IsOver k s → IsOver k (record s { is_election_stopped = true })
is_election_stopped-IsOver k s v = record {
  gone = v.gone;
  stops = λ h. refl;
  quiet = v.quiet;
  alone = v.alone;
  heard = v.heard;
}

pub supervisor_stopped-IsOver :
    (k t : ℕ) (s : Session) → IsOver k s → IsOver k (supervisor_stopped t s)
unfolding supervisor_stopped
supervisor_stopped-IsOver k t s v =
    by_if (IsOver k) (has_term t s.stopping) _ _ (λ here. is_election_stopped-IsOver k s v)
      (λ other. v)

still_here : (a b e : Bool) → a || b ≡ true → (b ≡ true → e ≡ true) → e ≡ false → a ≡ true
still_here true b e g h f = refl
still_here false b e g h f = cc (h g)

pub acquire-IsOver :
    (k : ℕ) (c : SessionSettings) (s : Session) → IsOver k s → IsOver k (acquire c s)
unfolding acquire
acquire-IsOver k c s v =
    by_if (IsOver k) (s.is_owner || s.is_election_stopped || not s.is_joined) _ _ (λ off. v)
      (λ on.
        let both = neither s.is_owner s.is_election_stopped (neither _ (not s.is_joined) on).0 in
        by_if (IsOver k) s.is_released _ _ (λ gone. v)
          (λ here.
            let still : s.is_released ≡ true = still_here _ _ _ v.gone v.stops both.1 in
            cc (here, still)))
