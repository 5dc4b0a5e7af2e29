-- ===== src/Owner/PortSupervisor/Platform.antt =====
-- What the platform tells the supervisor, and the reconnect timer, keep the invariant.
use serial_broker.Prelude.{
  ℕ, Bool, true, false, not, Option, List, [], ◌∷◌, ◌==◌, ◌||◌, ◌≡◌, refl, sym, ◌∙◌, ap, subst,
  arith, by_if,
}
use serial_broker.Core.Errors.{ErrorCode}
use serial_broker.Owner.PortSupervisor.{
  retries, revive, handle_device_connected, device_gone, concerns_other, handle_device_disconnected,
  write_failed, timer_ran, fire_timer, clear_timer,
}
use serial_broker.Owner.PortSupervisor.State.{
  ConnectionState, idle, awaiting_permission, listing, failed, stopped, opening, connected,
  reconnecting, Fields, Env, has_id,
}
use serial_broker.Owner.PortSupervisor.Invariant.{Inv, Holds}
use serial_broker.Owner.PortSupervisor.Attempts.{record_failed_attempt-Holds, lose_connection-Holds}
use serial_broker.Owner.PortSupervisor.Begins.{IsReady, begin_attempt-Holds}
use serial_broker.Owner.PortSupervisor.Calls.{Inv-IsReady, cleared-IsReady, reset-IsReady}

detached-Inv :
    (st : ConnectionState) (b : Bool) (f : Fields)
    → Inv st f
    → Inv st (record f { found_port_detached = b })
detached-Inv st b f v = record {
  base = record {
    fresh = v.base.fresh;
    tied = v.base.tied;
    safe = v.base.safe;
    told = v.base.told;
  };
  view = v.view;
  stop_view = v.stop_view;
}

revive-Holds : (env : Env) (st : ConnectionState) (f : Fields) → Inv st f → Holds (revive env st f)
revive-Holds env listing f v = record {
  base = record {
    fresh = v.base.fresh;
    tied = v.base.tied;
    safe = v.base.safe;
    told = v.base.told;
  };
  view = v.view;
  stop_view = v.stop_view;
}
revive-Holds env (reconnecting t) f v = begin_attempt-Holds env _ (cleared-IsReady t f v)
revive-Holds env failed f v =
    by_if Holds (not env.auto_reconnect) _ _ (λ manual. v)
      (λ auto. begin_attempt-Holds env _ (reset-IsReady f (Inv-IsReady failed f v refl refl)))
revive-Holds env awaiting_permission f v =
    begin_attempt-Holds env _ (reset-IsReady f (Inv-IsReady awaiting_permission f v refl refl))
revive-Holds env idle f v = v
revive-Holds env stopped f v = v
revive-Holds env (opening p) f v = v
revive-Holds env (connected p g) f v = v

pub handle_device_connected-Holds :
    (env : Env) (st : ConnectionState) (f : Fields)
    → Inv st f
    → Holds (handle_device_connected env st f)
unfolding handle_device_connected
handle_device_connected-Holds env st f v = revive-Holds env st _ (detached-Inv st false f v)

device_gone-Holds :
    (env : Env) (st : ConnectionState) (f : Fields) → Inv st f → Holds (device_gone env st f)
device_gone-Holds env (connected p g) f v =
    lose_connection-Holds env ErrorCode.device_disconnected retries (connected p g) f
      (Inv-IsReady (connected p g) f v refl refl) refl
device_gone-Holds env (opening p) f v =
    lose_connection-Holds env ErrorCode.device_disconnected retries (opening p) f
      (Inv-IsReady (opening p) f v refl refl) refl
device_gone-Holds env awaiting_permission f v =
    record_failed_attempt-Holds env f
      (record { ready = Inv-IsReady awaiting_permission f v refl refl; ended = v.view.0 })
device_gone-Holds env idle f v = v
device_gone-Holds env listing f v = v
device_gone-Holds env failed f v = v
device_gone-Holds env stopped f v = v
device_gone-Holds env (reconnecting t) f v = v

pub handle_device_disconnected-Holds :
    (env : Env) (port : Option ℕ) (st : ConnectionState) (f : Fields)
    → Inv st f
    → Holds (handle_device_disconnected env port st f)
unfolding handle_device_disconnected
handle_device_disconnected-Holds env port st f v =
    by_if Holds (concerns_other f.found_port port) _ _ (λ other. v)
      (λ this. device_gone-Holds env st _ (detached-Inv st true f v))

pub write_failed-Holds :
    (env : Env) (h : ℕ) (code : ErrorCode) (st : ConnectionState) (f : Fields)
    → Inv st f
    → Holds (write_failed env h code st f)
unfolding write_failed
write_failed-Holds env h code (connected p g) f v =
    by_if Holds (g == h) _ _
      (λ same.
        lose_connection-Holds env code retries (connected p g) f
          (Inv-IsReady (connected p g) f v refl refl) refl)
      (λ other. v)
write_failed-Holds env h code idle f v = v
write_failed-Holds env h code awaiting_permission f v = v
write_failed-Holds env h code listing f v = v
write_failed-Holds env h code failed f v = v
write_failed-Holds env h code stopped f v = v
write_failed-Holds env h code (opening p) f v = v
write_failed-Holds env h code (reconnecting t) f v = v

has_no_id : (t : ℕ) (ts : List ℕ) → ts ≡ [] → has_id t ts ≡ true → true ≡ false
has_no_id t [] e h = sym h
has_no_id t (s ∷ ts) e h = cc

only_id : (s t : ℕ) (ts : List ℕ) → ts ≡ s ∷ [] → has_id t ts ≡ true → s ≡ t
only_id s t ts e h =
    let h' : s == t || false ≡ true = ap (has_id t) (sym e) ∙ h in ground (arith, h')

timer_ran-Holds :
    (env : Env) (t : ℕ) (st : ConnectionState) (f : Fields)
    → Inv st f
    → has_id t f.timers ≡ true
    → Holds (timer_ran env st (clear_timer t f))
timer_ran-Holds env t (reconnecting s) f v h =
    let same : s ≡ t = only_id s t f.timers v.view.1 h in
    begin_attempt-Holds env _ (subst (λ x. IsReady (clear_timer x f)) same (cleared-IsReady s f v))
timer_ran-Holds env t idle f v h = cc (has_no_id t f.timers v.view.1 h)
timer_ran-Holds env t awaiting_permission f v h = cc (has_no_id t f.timers v.view.1 h)
timer_ran-Holds env t listing f v h = cc (has_no_id t f.timers v.view.1 h)
timer_ran-Holds env t failed f v h = cc (has_no_id t f.timers v.view.1 h)
timer_ran-Holds env t stopped f v h = cc (has_no_id t f.timers v.view.1 h)
timer_ran-Holds env t (opening p) f v h = cc (has_no_id t f.timers v.view.1 h)
timer_ran-Holds env t (connected p g) f v h = cc (has_no_id t f.timers v.view.1 h)

pub fire_timer-Holds :
    (env : Env) (t : ℕ) (st : ConnectionState) (f : Fields)
    → Inv st f
    → Holds (fire_timer env t st f)
unfolding fire_timer
fire_timer-Holds env t st f v =
    by_if Holds (has_id t f.timers) _ _ (λ set. timer_ran-Holds env t st f v set) (λ unset. v)
