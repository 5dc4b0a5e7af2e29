-- ===== src/Owner/PortSupervisor/Gaps.antt =====
-- What can run between the return of `#findPort` or `#open` and the rest of `#connect`.
use serial_broker.Prelude.{ℕ, none, some, ◌∷◌, ◌≡◌, refl, ◌∙◌, ap, lookup, by_some}
use serial_broker.Owner.PortSupervisor.{stop, stop_once, begin_stop}
use serial_broker.Owner.PortSupervisor.State.{
  ConnectionState, idle, awaiting_permission, listing, failed, stopped, opening, connected,
  reconnecting, has_found, has_opened, StopPhase, not_stopping, draining, closing_down, answering,
  has_stopped, opens_port, Fields, Supervisor, Env,
}
use serial_broker.Owner.PortSupervisor.Resume.{continue_found, continue_opened, has_streams}

begin_stop-continuations :
    (st : ConnectionState) (f : Fields) → (begin_stop st f).fields.continuations ≡ f.continuations
begin_stop-continuations idle f = refl
begin_stop-continuations awaiting_permission f = refl
begin_stop-continuations listing f = refl
begin_stop-continuations failed f = refl
begin_stop-continuations stopped f = refl
begin_stop-continuations (opening p) f = refl
begin_stop-continuations (connected p g) f = refl
begin_stop-continuations (reconnecting t) f = refl

stop_once-continuations :
    (phase : StopPhase) (st : ConnectionState) (f : Fields)
    → (stop_once phase st f).fields.continuations ≡ f.continuations
stop_once-continuations not_stopping st f = begin_stop-continuations st f
stop_once-continuations (draining g) st f = refl
stop_once-continuations (closing_down ids) st f = refl
stop_once-continuations answering st f = refl
stop_once-continuations has_stopped st f = refl

stop-continuations :
    (st : ConnectionState) (f : Fields) → (stop st f).fields.continuations ≡ f.continuations
unfolding stop
stop-continuations st f = stop_once-continuations f.stopping st f

-- When `stop()` runs after `#findPort` has returned a port and before `#connect` goes on, whatever the
-- state was, the port is opened all the same, and the supervisor is in `opening`, not `stopped`.
pub continue_found-stop :
    (env : Env) (g a p : ℕ) (st : ConnectionState) (f : Fields)
    → lookup g f.continuations ≡ some (has_found a p)
    → let after = continue_found env g none (stop st f).state (stop st f).fields in
      (after.state ≡ opening p) × (after.fields.trace ≡ opens_port g p ∷ (stop st f).fields.trace)
unfolding continue_found
continue_found-stop env g a p st f found =
    by_some
      (λ (s : Supervisor).
        (s.state ≡ opening p) × (s.fields.trace ≡ opens_port g p ∷ (stop st f).fields.trace))
      (lookup g (stop st f).fields.continuations) _ _ (has_found a p)
      (ap (lookup g) (stop-continuations st f) ∙ found) (refl, refl)

-- The same between the return of `#open` and `#startReading`: the supervisor is in `open`.
pub continue_opened-stop :
    (env : Env) (g a p : ℕ) (st : ConnectionState) (f : Fields)
    → lookup g f.continuations ≡ some (has_opened a p)
    → (continue_opened env g has_streams (stop st f).state (stop st f).fields).state ≡ connected p g
unfolding continue_opened
continue_opened-stop env g a p st f opened =
    by_some (λ (s : Supervisor). s.state ≡ connected p g)
      (lookup g (stop st f).fields.continuations) _ _ (has_opened a p)
      (ap (lookup g) (stop-continuations st f) ∙ opened) refl
