-- ===== src/Owner/PortSupervisor/Attempts.antt =====
-- An attempt that begins, fails or gives up keeps the invariant.
use serial_broker.Prelude.{
  ℕ, suc, ◌+◌, false, not, none, some, [], ◌∷◌, ◌++◌, ◌≡◌, refl, sym, ◌∙◌, ap, arith, lookup, by_if,
}
use serial_broker.Core.Errors.{ErrorCode}
use serial_broker.Core.Backoff.{record_disconnected, has_exhausted, retry_index}
use serial_broker.Owner.PortSupervisor.{
  emit, set_status, report, track_teardown, give_up, record_failed_attempt, retries, gives_up, Next,
  lose_connection, after_loss, schedule_reconnect, flush_received, close_previous,
  has_nothing_to_lose,
}
use serial_broker.Owner.PortSupervisor.State.{
  is_reconnecting, has_failed, ConnectionState, idle, awaiting_permission, listing, failed, stopped,
  opening, connected, reconnecting, flushes, Fields, at, Env,
}
use serial_broker.Owner.PortSupervisor.Invariant.{Holds, by_status}
use serial_broker.Owner.PortSupervisor.Begins.{IsReady, IsFresh-suc, running}

-- The current attempt has come to its end.
pub record HasEnded (f : Fields) : Type 0 where
  pub ready : IsReady f
  pub ended : lookup f.generation f.continuations ≡ none

pub give_up-Holds : (f : Fields) → HasEnded f → Holds (give_up f)
give_up-Holds f h =
    by_status (λ x. Holds (at failed x)) has_failed (record f { next_attempt_at = none })
      (λ t same safe told. record {
        base = record {
          fresh = h.ready.base.fresh;
          tied = h.ready.base.tied ∙ sym same;
          safe = safe h.ready.base.safe;
          told = told h.ready.base.told;
        };
        view = (h.ended, h.ready.no_timer, refl);
        stop_view = running f.stopping _ _ h.ready.runs;
      })

-- One more event that neither begins nor ends a close, nor opens a port.
pub report-HasEnded :
    (env : Env) (code : ErrorCode) (f : Fields) → HasEnded f → HasEnded (report env code f)
report-HasEnded env code f h = record {
  ready = record {
    base = record {
      fresh = h.ready.base.fresh;
      tied = h.ready.base.tied;
      safe = (tt, h.ready.base.safe);
      told = h.ready.base.told;
    };
    no_timer = h.ready.no_timer;
    runs = h.ready.runs;
  };
  ended = h.ended;
}

-- The attempts are counted apart from all that the invariant is about.
abbrev backoff_fields : Env → Fields → Fields
backoff_fields env f = record f {
  backoff = record_disconnected env.monotonic_now env.stable_after_ms f.backoff;
}

exhausted-Holds :
    (env : Env) (f : Fields)
    → HasEnded f
    → Holds (
        at failed (
          report env ErrorCode.reconnect_exhausted
            (set_status has_failed (record f { next_attempt_at = none }))))
exhausted-Holds env f h =
    by_status (λ x. Holds (at failed (report env ErrorCode.reconnect_exhausted x))) has_failed
      (record f { next_attempt_at = none })
      (λ t same safe told. record {
        base = record {
          fresh = h.ready.base.fresh;
          tied = h.ready.base.tied ∙ sym same;
          safe = (tt, safe h.ready.base.safe);
          told = told h.ready.base.told;
        };
        view = (h.ended, h.ready.no_timer, refl);
        stop_view = running f.stopping _ _ h.ready.runs;
      })

schedule_reconnect-Holds : (env : Env) (f : Fields) → HasEnded f → Holds (schedule_reconnect env f)
schedule_reconnect-Holds env f h =
    by_status (λ x. Holds (at (reconnecting f.next_timer) x)) is_reconnecting
      (record f {
        timers = f.next_timer ∷ f.timers;
        next_timer = suc f.next_timer;
        next_attempt_at = some (env.now + env.delay_ms (retry_index f.backoff));
      })
      (λ t same safe told. record {
        base = record {
          fresh = h.ready.base.fresh;
          tied = h.ready.base.tied ∙ sym same;
          safe = safe h.ready.base.safe;
          told = told h.ready.base.told;
        };
        view = (h.ended, ap (λ ts. f.next_timer ∷ ts) h.ready.no_timer, refl);
        stop_view = running f.stopping _ _ h.ready.runs;
      })

pub record_failed_attempt-Holds :
    (env : Env) (f : Fields) → HasEnded f → Holds (record_failed_attempt env f)
record_failed_attempt-Holds env f h =
    let counted : HasEnded (backoff_fields env f) = record {
      ready = record {
        base = record {
          fresh = h.ready.base.fresh;
          tied = h.ready.base.tied;
          safe = h.ready.base.safe;
          told = h.ready.base.told;
        };
        no_timer = h.ready.no_timer;
        runs = h.ready.runs;
      };
      ended = h.ended;
    } in
    by_if Holds (not env.auto_reconnect) _ _ (λ manual. give_up-Holds f h)
      (λ auto.
        by_if Holds (has_exhausted env.max_attempts (backoff_fields env f).backoff) _ _
          (λ out. exhausted-Holds env (backoff_fields env f) counted)
          (λ more. schedule_reconnect-Holds env (backoff_fields env f) counted))

after_loss-Holds :
    (env : Env) (next : Next) (f : Fields) → HasEnded f → Holds (after_loss env next f)
after_loss-Holds env retries f h = record_failed_attempt-Holds env f h
after_loss-Holds env gives_up f h = give_up-Holds f h

pub track_teardown-IsReady : (f : Fields) → IsReady f → IsReady (track_teardown f)
track_teardown-IsReady f r = record {
  base = record {
    fresh = r.base.fresh;
    tied = ap (λ ks. ks ++ f.next_close ∷ []) r.base.tied;
    safe = (tt, r.base.safe);
    told = r.base.told;
  };
  no_timer = r.no_timer;
  runs = r.runs;
}

track_teardown-HasEnded : (f : Fields) → HasEnded f → HasEnded (track_teardown f)
track_teardown-HasEnded f h = record { ready = track_teardown-IsReady f h.ready; ended = h.ended }

close_previous-HasEnded :
    (st : ConnectionState) (f : Fields) → HasEnded f → HasEnded (close_previous st f)
close_previous-HasEnded idle f h = h
close_previous-HasEnded awaiting_permission f h = h
close_previous-HasEnded listing f h = h
close_previous-HasEnded failed f h = h
close_previous-HasEnded stopped f h = h
close_previous-HasEnded (opening p) f h = track_teardown-HasEnded f h
close_previous-HasEnded (connected p g) f h = track_teardown-HasEnded f h
close_previous-HasEnded (reconnecting t) f h = h

-- The next generation has no continuation.
abbrev outdated : Fields → Fields
outdated f = record f { generation = suc f.generation; opened_at = none }

outdated-HasEnded : (f : Fields) → IsReady f → HasEnded (outdated f)
outdated-HasEnded f r = record {
  ready = record {
    base = record {
      fresh = IsFresh-suc f.generation f.continuations r.base.fresh;
      tied = r.base.tied;
      safe = r.base.safe;
      told = r.base.told;
    };
    no_timer = r.no_timer;
    runs = r.runs;
  };
  ended = r.base.fresh.above (suc f.generation) (omega arith);
}

emit_flushes-IsReady : (g : ℕ) (f : Fields) → IsReady f → IsReady (emit (flushes g) f)
emit_flushes-IsReady g f r = record {
  base = record {
    fresh = r.base.fresh;
    tied = r.base.tied;
    safe = (tt, r.base.safe);
    told = r.base.told;
  };
  no_timer = r.no_timer;
  runs = r.runs;
}

-- The fields after a loss has been noted, before it is reported.
lost-HasEnded :
    (st : ConnectionState) (f : Fields)
    → IsReady f
    → HasEnded (record (flush_received st f) { generation = suc f.generation; opened_at = none })
lost-HasEnded idle f r = outdated-HasEnded f r
lost-HasEnded awaiting_permission f r = outdated-HasEnded f r
lost-HasEnded listing f r = outdated-HasEnded f r
lost-HasEnded failed f r = outdated-HasEnded f r
lost-HasEnded stopped f r = outdated-HasEnded f r
lost-HasEnded (opening p) f r = outdated-HasEnded f r
lost-HasEnded (connected p g) f r =
    outdated-HasEnded (emit (flushes g) f) (emit_flushes-IsReady g f r)
lost-HasEnded (reconnecting t) f r = outdated-HasEnded f r

-- A loss where there is something to lose.
pub lose_connection-Holds :
    (env : Env) (code : ErrorCode) (next : Next) (st : ConnectionState) (f : Fields)
    → IsReady f
    → has_nothing_to_lose st ≡ false
    → Holds (lose_connection env code next st f)
unfolding lose_connection
lose_connection-Holds env code next st f r some_loss =
    by_if Holds (has_nothing_to_lose st) _ _ (λ none_lost. cc)
      (λ lost.
        after_loss-Holds env next _
          (close_previous-HasEnded st _ (report-HasEnded env code _ (lost-HasEnded st f r))))
