-- ===== src/Owner/PortSupervisor/Ends.antt =====
-- The supervisor (src/owner/port-supervisor.ts) after `stop()`.
use serial_broker.Prelude.{ℕ, suc, some, List, [], ◌∷◌, ◌≡◌, refl, ◌∙◌, arith, by_if}
use serial_broker.Owner.PortSupervisor.{
  start, retry, use_granted_port, follow_device, change_device, handle_device_connected,
  concerns_other, handle_device_disconnected, write_failed, fire_timer, stop, stop_once,
  continue_stop, stop_goes_on, finish_close,
}
use serial_broker.Owner.PortSupervisor.State.{
  is_idle, status_eq, ConnectionState, idle, awaiting_permission, listing, failed, stopped, opening,
  connected, reconnecting, StopPhase, not_stopping, draining, closing_down, answering, has_stopped,
  SupervisorEvent, status_changed, reported, lists_ports, opens_port, pushes, flushes, close_began,
  close_ended, Fields, Supervisor, Env, at, has_id, meets,
}
use serial_broker.Owner.PortSupervisor.Run.{
  Call, starts, retries_now, grants_port, device_connects, stops, stop_continues, follows,
  device_disconnects, timer_fires, close_finishes, teardown_settles, listing_settles,
  opening_settles, reading_settles, write_fails, step_from, run,
}
use serial_broker.Owner.PortSupervisor.Invariant.{Inv, Holds}
use serial_broker.Owner.PortSupervisor.Histories.{step_from-Holds}
use serial_broker.Owner.PortSupervisor.Stale.{attempt_of, stale_by}

-- How often the ports were listed or a port was opened.
abbrev pub searches : List SupervisorEvent → ℕ
searches [] = 0
searches (lists_ports g ∷ es) = suc (searches es)
searches (opens_port g p ∷ es) = suc (searches es)
searches (status_changed x ∷ es) = searches es
searches (reported x y ∷ es) = searches es
searches (pushes x y ∷ es) = searches es
searches (flushes x ∷ es) = searches es
searches (close_began x ∷ es) = searches es
searches (close_ended x ∷ es) = searches es

-- Stopped, with no search after the first `n`.
abbrev IsOver : ℕ → Supervisor → Type 0
IsOver n s = (s.state ≡ stopped) × (searches s.fields.trace ≡ n)

IsOver-on :
    (phase : StopPhase) (f : Fields) → IsOver (searches f.trace) (stop_goes_on phase stopped f)
IsOver-on not_stopping f = (refl, refl)
IsOver-on (draining g) f = (refl, refl)
IsOver-on (closing_down ids) f =
    by_if (IsOver (searches f.trace)) (meets ids f.closing) _ _ (λ waits. (refl, refl))
      (λ ended. (refl, refl))
IsOver-on answering f =
    by_if (λ x. IsOver (searches f.trace) (at stopped x)) (status_eq f.status is_idle) _ _
      (λ same. (refl, refl)) (λ other. (refl, refl))
IsOver-on has_stopped f = (refl, refl)

IsOver-once :
    (phase : StopPhase) (f : Fields) → IsOver (searches f.trace) (stop_once phase stopped f)
IsOver-once not_stopping f = (refl, refl)
IsOver-once (draining g) f = (refl, refl)
IsOver-once (closing_down ids) f = (refl, refl)
IsOver-once answering f = (refl, refl)
IsOver-once has_stopped f = (refl, refl)

IsOver-stale :
    (env : Env) (c : Call) (g : ℕ) (f : Fields)
    → Inv stopped f
    → attempt_of c ≡ some g
    → IsOver (searches f.trace) (step_from env c stopped f)
IsOver-stale env c g f v e =
    stale_by (IsOver (searches f.trace)) env g stopped f v (ground arith) (refl, refl) (refl, refl)
      c e

IsOver-step :
    (env : Env) (c : Call) (f : Fields)
    → Inv stopped f
    → IsOver (searches f.trace) (step_from env c stopped f)
unfolding step_from start retry use_granted_port follow_device change_device handle_device_connected
    handle_device_disconnected write_failed fire_timer stop continue_stop finish_close
IsOver-step env (starts b) f v = (refl, refl)
IsOver-step env retries_now f v = (refl, refl)
IsOver-step env grants_port f v = (refl, refl)
IsOver-step env device_connects f v = (refl, refl)
IsOver-step env (follows matches) f v = (refl, refl)
IsOver-step env (write_fails h code) f v = (refl, refl)
IsOver-step env stops f v = IsOver-once f.stopping f
IsOver-step env stop_continues f v = IsOver-on f.stopping f
IsOver-step env (device_disconnects port) f v =
    by_if (IsOver (searches f.trace)) (concerns_other f.found_port port) _ _ (λ other. (refl, refl))
      (λ this. (refl, refl))
IsOver-step env (timer_fires t) f v =
    by_if (IsOver (searches f.trace)) (has_id t f.timers) _ _ (λ set. (refl, refl))
      (λ unset. (refl, refl))
IsOver-step env (close_finishes k) f v =
    by_if (IsOver (searches f.trace)) (has_id k f.closing) _ _ (λ ends. (refl, refl))
      (λ unknown. (refl, refl))
IsOver-step env (teardown_settles g) f v = IsOver-stale env (teardown_settles g) g f v refl
IsOver-step env (listing_settles g result throws) f v =
    IsOver-stale env (listing_settles g result throws) g f v refl
IsOver-step env (opening_settles g result streams) f v =
    IsOver-stale env (opening_settles g result streams) g f v refl
IsOver-step env (reading_settles g result) f v =
    IsOver-stale env (reading_settles g result) g f v refl

IsOver-from :
    (env : Env) (c : Call) (st : ConnectionState) (f : Fields)
    → Inv st f
    → st ≡ stopped
    → IsOver (searches f.trace) (step_from env c st f)
IsOver-from env c stopped f v e = IsOver-step env c f v
IsOver-from env c idle f v e = cc
IsOver-from env c awaiting_permission f v e = cc
IsOver-from env c listing f v e = cc
IsOver-from env c failed f v e = cc
IsOver-from env c (opening p) f v e = cc
IsOver-from env c (connected p g) f v e = cc
IsOver-from env c (reconnecting t) f v e = cc

-- Whatever is called and whatever happens after `stop()`, the supervisor stays stopped, and neither
-- lists the ports nor opens one again. Every return of `#findPort` and `#open` is taken up at once.
pub run-stopped :
    (calls : List (Env × Call)) (s : Supervisor)
    → Holds s
    → s.state ≡ stopped
    → ((run calls s).state ≡ stopped)
      × (searches (run calls s).fields.trace ≡ searches s.fields.trace)
unfolding run
run-stopped [] s v e = (e, refl)
run-stopped ((env, c) ∷ cs) s v e =
    let over = IsOver-from env c s.state s.fields v e in
    let rest = run-stopped cs _ (step_from-Holds env c s.state s.fields v) over.0 in
    (rest.0, rest.1 ∙ over.1)
