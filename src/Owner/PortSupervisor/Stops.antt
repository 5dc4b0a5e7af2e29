-- ===== src/Owner/PortSupervisor/Stops.antt =====
-- `stop()`, what it awaits, and a close that ends keep the invariant.
use serial_broker.Prelude.{
  ℕ, suc, Bool, true, false, Option, List, [], ◌∷◌, ◌++◌, ◌||◌, ◌≡◌, refl, sym, inl, inr, ◌∙◌, ap,
  subst, arith, by_if, ==_refl,
}
use serial_broker.Owner.PortSupervisor.{
  stop, stop_once, begin_stop, stop_now, awaits_closes, stop_goes_on, continue_stop, finish_close,
}
use serial_broker.Owner.PortSupervisor.State.{
  is_idle, ConnectionState, idle, awaiting_permission, listing, failed, stopped, opening, connected,
  reconnecting, Continuation, Status, StopPhase, not_stopping, draining, closing_down, answering,
  has_stopped, is_stopped, Fields, at, has_id, drop_id, meets,
}
use serial_broker.Owner.PortSupervisor.Invariant.{
  IsAmong, IsLooking, View, StopView, Inv, Holds, by_status, drop_id-IsAmong,
}
use serial_broker.Owner.PortSupervisor.Attempts.{track_teardown-IsReady}
use serial_broker.Owner.PortSupervisor.Begins.{IsReady, IsFresh-suc}
use serial_broker.Owner.PortSupervisor.Calls.{Inv-IsReady, cleared-IsReady, running_phase}

-- `stop` waits for the closes under way when nothing of the port is left.
stopping-Holds : (f : Fields) → IsReady f → Holds (at stopped (awaits_closes (stop_now f)))
stopping-Holds f r = record {
  base = record {
    fresh = IsFresh-suc f.generation f.continuations r.base.fresh;
    tied = r.base.tied;
    safe = r.base.safe;
    told = r.base.told;
  };
  view = (r.base.fresh.above (suc f.generation) (omega arith), r.no_timer);
  stop_view = (refl, λ k there. there);
}

begin_stop-Holds :
    (st : ConnectionState) (f : Fields)
    → Inv st f
    → f.stopping ≡ not_stopping
    → Holds (begin_stop st f)
begin_stop-Holds idle f v n = stopping-Holds f (Inv-IsReady idle f v refl refl)
begin_stop-Holds awaiting_permission f v n =
    stopping-Holds f (Inv-IsReady awaiting_permission f v refl refl)
begin_stop-Holds listing f v n = stopping-Holds f (Inv-IsReady listing f v refl refl)
begin_stop-Holds failed f v n = stopping-Holds f (Inv-IsReady failed f v refl refl)
begin_stop-Holds stopped f v n = cc (subst (λ p. StopView p true f.closing f.status) n v.stop_view)
begin_stop-Holds (opening p) f v n =
    let i = stopping-Holds _ (track_teardown-IsReady f (Inv-IsReady (opening p) f v refl refl)) in
    record {
      base = record {
        fresh = i.base.fresh;
        tied = i.base.tied;
        safe = i.base.safe;
        told = i.base.told;
      };
      view = i.view;
      stop_view = i.stop_view;
    }
begin_stop-Holds (reconnecting t) f v n =
    let i = stopping-Holds _ (cleared-IsReady t f v) in
    record {
      base = record {
        fresh = i.base.fresh;
        tied = i.base.tied;
        safe = i.base.safe;
        told = i.base.told;
      };
      view = i.view;
      stop_view = i.stop_view;
    }
begin_stop-Holds (connected p g) f v n =
    let i = stopping-Holds f (Inv-IsReady (connected p g) f v refl refl) in
    record {
      base = record {
        fresh = i.base.fresh;
        tied = i.base.tied;
        safe = (tt, i.base.safe);
        told = i.base.told;
      };
      view = i.view;
      stop_view = refl;
    }

stop_once-Holds :
    (phase : StopPhase) (st : ConnectionState) (f : Fields)
    → Inv st f
    → f.stopping ≡ phase
    → Holds (stop_once phase st f)
stop_once-Holds not_stopping st f v e = begin_stop-Holds st f v e
stop_once-Holds (draining g) st f v e = v
stop_once-Holds (closing_down ids) st f v e = v
stop_once-Holds answering st f v e = v
stop_once-Holds has_stopped st f v e = v

pub stop-Holds : (st : ConnectionState) (f : Fields) → Inv st f → Holds (stop st f)
unfolding stop
stop-Holds st f v = stop_once-Holds f.stopping st f v refl

-- A close under way that was awaited is still found.
meets_first :
    (j : ℕ) (ids ks : List ℕ) → has_id j ids ≡ true → has_id j ks ≡ true → meets ids ks ≡ true
meets_first j [] ks h there = cc
meets_first j (i ∷ ids) ks h there = ground (arith, meets_first j ids ks)

-- With none of those awaited under way, and those under way among them, none is under way.
pub all_ended :
    (ids closing : List ℕ) → IsAmong closing ids → meets ids closing ≡ false → closing ≡ []
all_ended ids [] h m = refl
all_ended ids (k ∷ ks) h m =
    let there : has_id k (k ∷ ks) ≡ true = ap (λ b. b || has_id k ks) (==_refl k) in
    cc (meets_first k ids (k ∷ ks) (h k there) there)

-- A stopped supervisor, in another phase of its stop.
another_phase :
    (phase : StopPhase) (f : Fields)
    → Inv stopped f
    → StopView phase true f.closing f.status
    → Holds (at stopped (record f { stopping = phase }))
another_phase phase f v s = record {
  base = record {
    fresh = v.base.fresh;
    tied = v.base.tied;
    safe = v.base.safe;
    told = v.base.told;
  };
  view = v.view;
  stop_view = s;
}

stop_goes_on-Holds :
    (phase : StopPhase) (f : Fields)
    → Inv stopped f
    → f.stopping ≡ phase
    → Holds (stop_goes_on phase stopped f)
stop_goes_on-Holds not_stopping f v e = v
stop_goes_on-Holds (draining g) f v e = record {
  base = record {
    fresh = v.base.fresh;
    tied = ap (λ ks. ks ++ f.next_close ∷ []) v.base.tied;
    safe = (tt, v.base.safe);
    told = v.base.told;
  };
  view = v.view;
  stop_view = (refl, λ k there. there);
}
stop_goes_on-Holds (closing_down ids) f v e =
    by_if Holds (meets ids f.closing) _ _ (λ waits. v)
      (λ ended. another_phase answering f v (
        refl,
        all_ended ids f.closing (subst (λ p. StopView p true f.closing f.status) e v.stop_view).1
            ended,
      ))
stop_goes_on-Holds answering f v e =
    let s : StopView answering true f.closing f.status =
      subst (λ p. StopView p true f.closing f.status) e v.stop_view in
    by_status (λ x. Holds (at stopped x)) is_idle (record f { stopping = has_stopped })
      (λ t same safe told. record {
        base = record {
          fresh = v.base.fresh;
          tied = v.base.tied ∙ sym same;
          safe = safe v.base.safe;
          told = told v.base.told;
        };
        view = v.view;
        stop_view = (refl, s.1, refl);
      })
stop_goes_on-Holds has_stopped f v e = v

-- A supervisor that is not being stopped awaits nothing of its stop.
nothing_to_go_on :
    (st : ConnectionState) (f : Fields)
    → Inv st f
    → f.stopping ≡ not_stopping
    → Holds (stop_goes_on f.stopping st f)
nothing_to_go_on st f v n = subst (λ p. Holds (stop_goes_on p st f)) (sym n) v

pub continue_stop-Holds :
    (st : ConnectionState) (f : Fields) → Inv st f → Holds (continue_stop st f)
unfolding continue_stop
continue_stop-Holds stopped f v = stop_goes_on-Holds f.stopping f v refl
continue_stop-Holds idle f v =
    nothing_to_go_on idle f v (running_phase f.stopping f.closing f.status v.stop_view)
continue_stop-Holds awaiting_permission f v =
    nothing_to_go_on awaiting_permission f v
      (running_phase f.stopping f.closing f.status v.stop_view)
continue_stop-Holds listing f v =
    nothing_to_go_on listing f v (running_phase f.stopping f.closing f.status v.stop_view)
continue_stop-Holds failed f v =
    nothing_to_go_on failed f v (running_phase f.stopping f.closing f.status v.stop_view)
continue_stop-Holds (opening p) f v =
    nothing_to_go_on (opening p) f v (running_phase f.stopping f.closing f.status v.stop_view)
continue_stop-Holds (connected p g) f v =
    nothing_to_go_on (connected p g) f v (running_phase f.stopping f.closing f.status v.stop_view)
continue_stop-Holds (reconnecting t) f v =
    nothing_to_go_on (reconnecting t) f v (running_phase f.stopping f.closing f.status v.stop_view)

none_under_way : (k : ℕ) (ks : List ℕ) → ks ≡ [] → drop_id k ks ≡ []
none_under_way k ks e = ap (drop_id k) e

IsLooking-after :
    (k : ℕ) (c : Option Continuation) (closing : List ℕ)
    → IsLooking c closing
    → IsLooking c (drop_id k closing)
IsLooking-after k c closing (inl (a, ids, e, among)) =
    inl (a, ids, e, drop_id-IsAmong k closing ids among)
IsLooking-after k c closing (inr (a, e, none_left)) = inr (a, e, none_under_way k closing none_left)

View-after :
    (k : ℕ) (st : ConnectionState) (c : Option Continuation) (timers : List ℕ) (status : Status)
    (closing : List ℕ) (g : ℕ)
    → View st c timers status closing g
    → View st c timers status (drop_id k closing) g
View-after k idle c timers status closing g v = v
View-after k awaiting_permission c timers status closing g v = v
View-after k listing c timers status closing g (l, t, s) = (IsLooking-after k c closing l, t, s)
View-after k failed c timers status closing g v = v
View-after k stopped c timers status closing g v = v
View-after k (opening p) c timers status closing g (a, t, s, e) =
    (a, t, s, none_under_way k closing e)
View-after k (connected p h) c timers status closing g (a, t, s, e, same) =
    (a, t, s, none_under_way k closing e, same)
View-after k (reconnecting t) c timers status closing g v = v

StopView-after :
    (k : ℕ) (phase : StopPhase) (is_over : Bool) (closing : List ℕ) (status : Status)
    → StopView phase is_over closing status
    → StopView phase is_over (drop_id k closing) status
StopView-after k not_stopping is_over closing status v = v
StopView-after k (draining g) is_over closing status v = v
StopView-after k (closing_down ids) is_over closing status (o, among) =
    (o, drop_id-IsAmong k closing ids among)
StopView-after k answering is_over closing status (o, e) = (o, none_under_way k closing e)
StopView-after k has_stopped is_over closing status (o, e, s) = (o, none_under_way k closing e, s)

pub finish_close-Holds :
    (k : ℕ) (st : ConnectionState) (f : Fields) → Inv st f → Holds (finish_close k st f)
unfolding finish_close
finish_close-Holds k st f v =
    by_if Holds (has_id k f.closing) _ _
      (λ ends. record {
        base = record {
          fresh = v.base.fresh;
          tied = ap (drop_id k) v.base.tied;
          safe = (tt, v.base.safe);
          told = v.base.told;
        };
        view = View-after k st _ f.timers f.status f.closing f.generation v.view;
        stop_view = StopView-after k f.stopping (is_stopped st) f.closing f.status v.stop_view;
      })
      (λ unknown. v)
