-- ===== src/Owner/PortSupervisor/Calls.antt =====
-- The calls of the owner and of the platform keep the invariant.
use serial_broker.Prelude.{ℕ, Bool, true, false, List, [], ◌∷◌, ◌≡◌, refl, sym, ◌∙◌, arith, by_if}
use serial_broker.Owner.PortSupervisor.{
  emit, start, retry, use_granted_port, follow_device, change_device, leave_device, forget_device,
  reset_backoff, clear_timer,
}
use serial_broker.Owner.PortSupervisor.State.{
  Status, has_failed, ConnectionState, idle, awaiting_permission, listing, failed, stopped, opening,
  connected, reconnecting, StopPhase, not_stopping, draining, closing_down, answering, has_stopped,
  is_stopped, flushes, Fields, at, Env, drop_id,
}
use serial_broker.Owner.PortSupervisor.Invariant.{StopView, Inv, Holds, by_status}
use serial_broker.Owner.PortSupervisor.Attempts.{track_teardown-IsReady}
use serial_broker.Owner.PortSupervisor.Begins.{IsReady, running, IsFresh-suc, begin_attempt-Holds}

pub running_phase :
    (phase : StopPhase) (closing : List ℕ) (status : Status)
    → StopView phase false closing status
    → phase ≡ not_stopping
running_phase not_stopping closing status v = refl
running_phase (draining g) closing status v = cc
running_phase (closing_down ids) closing status v = cc (v.0)
running_phase answering closing status v = cc (v.0)
running_phase has_stopped closing status v = cc (v.0)

abbrev has_timer : ConnectionState → Bool
has_timer (reconnecting t) = true
has_timer _ = false

-- In a state that is neither stopped nor waiting for a timer, an attempt may begin.
pub Inv-IsReady :
    (st : ConnectionState) (f : Fields)
    → Inv st f
    → is_stopped st ≡ false
    → has_timer st ≡ false
    → IsReady f
Inv-IsReady idle f v a b = record {
  base = v.base;
  no_timer = v.view.1;
  runs = running_phase f.stopping f.closing f.status v.stop_view;
}
Inv-IsReady awaiting_permission f v a b = record {
  base = v.base;
  no_timer = v.view.1;
  runs = running_phase f.stopping f.closing f.status v.stop_view;
}
Inv-IsReady listing f v a b = record {
  base = v.base;
  no_timer = v.view.1;
  runs = running_phase f.stopping f.closing f.status v.stop_view;
}
Inv-IsReady failed f v a b = record {
  base = v.base;
  no_timer = v.view.1;
  runs = running_phase f.stopping f.closing f.status v.stop_view;
}
Inv-IsReady (opening p) f v a b = record {
  base = v.base;
  no_timer = v.view.1;
  runs = running_phase f.stopping f.closing f.status v.stop_view;
}
Inv-IsReady (connected p g) f v a b = record {
  base = v.base;
  no_timer = v.view.1;
  runs = running_phase f.stopping f.closing f.status v.stop_view;
}
Inv-IsReady stopped f v a b = cc
Inv-IsReady (reconnecting t) f v a b = cc

-- Clearing the one timer that is set.
drop_only : (t : ℕ) (ts : List ℕ) → ts ≡ t ∷ [] → drop_id t ts ≡ []
drop_only t ts e = rw e (ground arith)

pub cleared-IsReady : (t : ℕ) (f : Fields) → Inv (reconnecting t) f → IsReady (clear_timer t f)
cleared-IsReady t f v = record {
  base = record {
    fresh = v.base.fresh;
    tied = v.base.tied;
    safe = v.base.safe;
    told = v.base.told;
  };
  no_timer = drop_only t f.timers v.view.1;
  runs = running_phase f.stopping f.closing f.status v.stop_view;
}

pub reset-IsReady : (f : Fields) → IsReady f → IsReady (reset_backoff f)
reset-IsReady f r = record {
  base = record {
    fresh = r.base.fresh;
    tied = r.base.tied;
    safe = r.base.safe;
    told = r.base.told;
  };
  no_timer = r.no_timer;
  runs = r.runs;
}

pub start-Holds :
    (env : Env) (from_failed : Bool) (st : ConnectionState) (f : Fields)
    → Inv st f
    → Holds (start env from_failed st f)
unfolding start
start-Holds env from_failed idle f v =
    by_if Holds from_failed _ _
      (λ fails.
        by_status (λ x. Holds (at failed x)) has_failed f
          (λ t same safe told. record {
            base = record {
              fresh = v.base.fresh;
              tied = v.base.tied ∙ sym same;
              safe = safe v.base.safe;
              told = told v.base.told;
            };
            view = (v.view.0, v.view.1, refl);
            stop_view =
                running f.stopping _ _ (running_phase f.stopping f.closing f.status v.stop_view);
          }))
      (λ connects. begin_attempt-Holds env f (Inv-IsReady idle f v refl refl))
start-Holds env from_failed awaiting_permission f v = v
start-Holds env from_failed listing f v = v
start-Holds env from_failed failed f v = v
start-Holds env from_failed stopped f v = v
start-Holds env from_failed (opening p) f v = v
start-Holds env from_failed (connected p g) f v = v
start-Holds env from_failed (reconnecting t) f v = v

pub retry-Holds :
    (env : Env) (st : ConnectionState) (f : Fields) → Inv st f → Holds (retry env st f)
unfolding retry
retry-Holds env failed f v =
    begin_attempt-Holds env _ (reset-IsReady f (Inv-IsReady failed f v refl refl))
retry-Holds env awaiting_permission f v =
    begin_attempt-Holds env _ (reset-IsReady f (Inv-IsReady awaiting_permission f v refl refl))
retry-Holds env idle f v = v
retry-Holds env listing f v = v
retry-Holds env stopped f v = v
retry-Holds env (opening p) f v = v
retry-Holds env (connected p g) f v = v
retry-Holds env (reconnecting t) f v = v

pub use_granted_port-Holds :
    (env : Env) (st : ConnectionState) (f : Fields) → Inv st f → Holds (use_granted_port env st f)
unfolding use_granted_port
use_granted_port-Holds env stopped f v = v
use_granted_port-Holds env (connected p g) f v = v
use_granted_port-Holds env (opening p) f v = v
use_granted_port-Holds env (reconnecting t) f v =
    begin_attempt-Holds env _ (reset-IsReady _ (cleared-IsReady t f v))
use_granted_port-Holds env idle f v =
    begin_attempt-Holds env _ (reset-IsReady f (Inv-IsReady idle f v refl refl))
use_granted_port-Holds env awaiting_permission f v =
    begin_attempt-Holds env _ (reset-IsReady f (Inv-IsReady awaiting_permission f v refl refl))
use_granted_port-Holds env listing f v =
    begin_attempt-Holds env _ (reset-IsReady f (Inv-IsReady listing f v refl refl))
use_granted_port-Holds env failed f v =
    begin_attempt-Holds env _ (reset-IsReady f (Inv-IsReady failed f v refl refl))

forget_device-IsReady : (f : Fields) → IsReady f → IsReady (forget_device f)
forget_device-IsReady f r = record {
  base = record {
    fresh = IsFresh-suc f.generation f.continuations r.base.fresh;
    tied = r.base.tied;
    safe = r.base.safe;
    told = r.base.told;
  };
  no_timer = r.no_timer;
  runs = r.runs;
}

flushed-IsReady : (g : ℕ) (f : Fields) → IsReady f → IsReady (emit (flushes g) f)
flushed-IsReady g f r = record {
  base = record {
    fresh = r.base.fresh;
    tied = r.base.tied;
    safe = (tt, r.base.safe);
    told = r.base.told;
  };
  no_timer = r.no_timer;
  runs = r.runs;
}

leave_device-IsReady :
    (st : ConnectionState) (f : Fields)
    → Inv st f
    → is_stopped st ≡ false
    → IsReady (leave_device st (forget_device f))
leave_device-IsReady idle f v a = forget_device-IsReady f (Inv-IsReady idle f v refl refl)
leave_device-IsReady awaiting_permission f v a =
    forget_device-IsReady f (Inv-IsReady awaiting_permission f v refl refl)
leave_device-IsReady listing f v a = forget_device-IsReady f (Inv-IsReady listing f v refl refl)
leave_device-IsReady failed f v a = forget_device-IsReady f (Inv-IsReady failed f v refl refl)
leave_device-IsReady stopped f v a = cc
leave_device-IsReady (opening p) f v a =
    track_teardown-IsReady _ (forget_device-IsReady f (Inv-IsReady (opening p) f v refl refl))
leave_device-IsReady (connected p g) f v a =
    track_teardown-IsReady _
      (flushed-IsReady g _ (forget_device-IsReady f (Inv-IsReady (connected p g) f v refl refl)))
leave_device-IsReady (reconnecting t) f v a =
    let r = forget_device-IsReady (clear_timer t f) (cleared-IsReady t f v) in
    record {
      base = record {
        fresh = r.base.fresh;
        tied = r.base.tied;
        safe = r.base.safe;
        told = r.base.told;
      };
      no_timer = r.no_timer;
      runs = r.runs;
    }

change_device-Holds :
    (env : Env) (st : ConnectionState) (f : Fields) → Inv st f → Holds (change_device env st f)
unfolding change_device
change_device-Holds env stopped f v = v
change_device-Holds env idle f v =
    begin_attempt-Holds env _ (reset-IsReady _ (leave_device-IsReady idle f v refl))
change_device-Holds env awaiting_permission f v =
    begin_attempt-Holds env _ (reset-IsReady _ (leave_device-IsReady awaiting_permission f v refl))
change_device-Holds env listing f v =
    begin_attempt-Holds env _ (reset-IsReady _ (leave_device-IsReady listing f v refl))
change_device-Holds env failed f v =
    begin_attempt-Holds env _ (reset-IsReady _ (leave_device-IsReady failed f v refl))
change_device-Holds env (opening p) f v =
    begin_attempt-Holds env _ (reset-IsReady _ (leave_device-IsReady (opening p) f v refl))
change_device-Holds env (connected p g) f v =
    begin_attempt-Holds env _ (reset-IsReady _ (leave_device-IsReady (connected p g) f v refl))
change_device-Holds env (reconnecting t) f v =
    begin_attempt-Holds env _ (reset-IsReady _ (leave_device-IsReady (reconnecting t) f v refl))

pub follow_device-Holds :
    (env : Env) (matches : ℕ → Bool) (st : ConnectionState) (f : Fields)
    → Inv st f
    → Holds (follow_device env matches st f)
unfolding follow_device
follow_device-Holds env matches (connected p g) f v =
    by_if Holds (matches p) _ _ (λ same. v) (λ other. change_device-Holds env (connected p g) f v)
follow_device-Holds env matches (opening p) f v =
    by_if Holds (matches p) _ _ (λ same. v) (λ other. change_device-Holds env (opening p) f v)
follow_device-Holds env matches idle f v = change_device-Holds env idle f v
follow_device-Holds env matches awaiting_permission f v =
    change_device-Holds env awaiting_permission f v
follow_device-Holds env matches listing f v = change_device-Holds env listing f v
follow_device-Holds env matches failed f v = change_device-Holds env failed f v
follow_device-Holds env matches stopped f v = change_device-Holds env stopped f v
follow_device-Holds env matches (reconnecting t) f v = change_device-Holds env (reconnecting t) f v
