-- ===== src/Owner/PortSupervisor/Losses.antt =====
-- A lost connection (src/owner/port-supervisor.ts), which the platform reports twice.
use serial_broker.Prelude.{
  ℕ, suc, Bool, true, not, Option, none, ◌≡◌, refl, sym, ◌∙◌, ap, arith, by_if, List, [], ◌∷◌, ◌++◌,
  All, ◌&&◌, if◌then◌else◌, false,
}
use serial_broker.Core.Errors.{ErrorCode, is_retryable_code}
use serial_broker.Core.Backoff.{BackoffState, record_disconnected, has_exhausted}
use serial_broker.Owner.PortSupervisor.{
  set_status, record_failed_attempt, give_up, Next, retries, gives_up, after_loss, lose_connection,
  handle_device_disconnected, device_gone, concerns_other, write_failed, report, close_previous,
  flush_received,
}
use serial_broker.Owner.PortSupervisor.State.{
  Status, is_reconnecting, has_failed, status_eq, ConnectionState, idle, awaiting_permission,
  listing, failed, stopped, opening, connected, reconnecting, Fields, Supervisor, Env, at,
  SupervisorEvent, status_changed, reported, flushes, close_began,
}
use serial_broker.Owner.PortSupervisor.Resume.{Reading}
use serial_broker.Owner.PortSupervisor.Run.{
  reading_settles, device_disconnects, write_fails, step_from,
}
use serial_broker.Owner.PortSupervisor.Invariant.{Inv, Holds}
use serial_broker.Owner.PortSupervisor.Attempts.{lose_connection-Holds}
use serial_broker.Owner.PortSupervisor.Calls.{Inv-IsReady}
use serial_broker.Owner.PortSupervisor.Stale.{stale_by}

-- Waiting for a timer, or failed.
abbrev pub IsResigned : ConnectionState → Type 0
IsResigned (reconnecting t) = Unit
IsResigned failed = Unit
IsResigned _ = ⊥

-- A supervisor that has resigned in this generation.
abbrev HasResigned : ℕ → Supervisor → Type 0
HasResigned g s = IsResigned s.state × (s.fields.generation ≡ g)

kept_generation :
    (g : ℕ) (status : Status) (f : Fields) → f.generation ≡ g → (set_status status f).generation ≡ g
kept_generation g status f h =
    by_if (λ (x : Fields). x.generation ≡ g) (status_eq f.status status) _ _ (λ same. h)
      (λ other. h)

give_up-HasResigned : (g : ℕ) (f : Fields) → f.generation ≡ g → HasResigned g (give_up f)
give_up-HasResigned g f h =
    (tt, kept_generation g has_failed (record f { next_attempt_at = none }) h)

record_failed_attempt-HasResigned :
    (env : Env) (g : ℕ) (f : Fields)
    → f.generation ≡ g
    → HasResigned g (record_failed_attempt env f)
record_failed_attempt-HasResigned env g f h =
    by_if (HasResigned g) (not env.auto_reconnect) _ _ (λ manual. give_up-HasResigned g f h)
      (λ auto.
        by_if (HasResigned g)
          (has_exhausted env.max_attempts
            (record_disconnected env.monotonic_now env.stable_after_ms f.backoff))
          _ _ (λ out. (tt, kept_generation g has_failed _ h))
          (λ more. (tt, kept_generation g is_reconnecting _ h)))

after_loss-HasResigned :
    (env : Env) (next : Next) (g : ℕ) (f : Fields)
    → f.generation ≡ g
    → HasResigned g (after_loss env next f)
after_loss-HasResigned env retries g f h = record_failed_attempt-HasResigned env g f h
after_loss-HasResigned env gives_up g f h = give_up-HasResigned g f h

lost-HasResigned :
    (env : Env) (code : ErrorCode) (next : Next) (p g : ℕ) (f : Fields)
    → HasResigned (suc f.generation) (lose_connection env code next (connected p g) f)
unfolding lose_connection
lost-HasResigned env code next p g f = after_loss-HasResigned env next (suc f.generation) _ refl

-- The state, what was done and told, and the attempts counted are the same.
abbrev pub IsUnchanged : Supervisor → Supervisor → Type 0
IsUnchanged s t =
    (t.state ≡ s.state) × (t.fields.trace ≡ s.fields.trace) × (t.fields.backoff ≡ s.fields.backoff)

device_gone-IsUnchanged :
    (env : Env) (b : Bool) (st : ConnectionState) (f : Fields)
    → IsResigned st
    → IsUnchanged (at st f) (device_gone env st (record f { found_port_detached = b }))
device_gone-IsUnchanged env b (reconnecting t) f r = (refl, refl, refl)
device_gone-IsUnchanged env b failed f r = (refl, refl, refl)
device_gone-IsUnchanged env b idle f r = elim r [ ]
device_gone-IsUnchanged env b awaiting_permission f r = elim r [ ]
device_gone-IsUnchanged env b listing f r = elim r [ ]
device_gone-IsUnchanged env b stopped f r = elim r [ ]
device_gone-IsUnchanged env b (opening p) f r = elim r [ ]
device_gone-IsUnchanged env b (connected p g) f r = elim r [ ]

disconnect_after :
    (env : Env) (port : Option ℕ) (st : ConnectionState) (f : Fields)
    → IsResigned st
    → IsUnchanged (at st f) (handle_device_disconnected env port st f)
unfolding handle_device_disconnected
disconnect_after env port st f r =
    by_if (IsUnchanged (at st f)) (concerns_other f.found_port port) _ _
      (λ other. (refl, refl, refl)) (λ this. device_gone-IsUnchanged env true st f r)

read_after :
    (env : Env) (g : ℕ) (result : Reading) (s : Supervisor)
    → Holds s
    → s.fields.generation ≡ suc g
    → IsUnchanged s (step_from env (reading_settles g result) s.state s.fields)
read_after env g result s v e =
    stale_by (IsUnchanged s) env g s.state s.fields v (ground (arith, e)) (refl, refl, refl)
      (refl, refl, refl) (reading_settles g result) refl

write_after :
    (env : Env) (h : ℕ) (code : ErrorCode) (st : ConnectionState) (f : Fields)
    → IsResigned st
    → IsUnchanged (at st f) (write_failed env h code st f)
unfolding write_failed
write_after env h code (reconnecting t) f r = (refl, refl, refl)
write_after env h code failed f r = (refl, refl, refl)
write_after env h code idle f r = elim r [ ]
write_after env h code awaiting_permission f r = elim r [ ]
write_after env h code listing f r = elim r [ ]
write_after env h code stopped f r = elim r [ ]
write_after env h code (opening p) f r = elim r [ ]
write_after env h code (connected p g) f r = elim r [ ]

-- Once a loss is known: the status changes, or the attempts are exhausted.
abbrev pub IsAftermath : SupervisorEvent → Type 0
IsAftermath (status_changed x) = Unit
IsAftermath (reported code b) = code ≡ ErrorCode.reconnect_exhausted
IsAftermath _ = ⊥

abbrev pub Follows : List SupervisorEvent → List SupervisorEvent → Type 0
Follows es fs = (newer : List SupervisorEvent) × (fs ≡ newer ++ es) × All IsAftermath newer

-- The closes and the count of attempts, and the trace up to what follows the loss.
abbrev After : List SupervisorEvent → List ℕ → BackoffState → Fields → Type 0
After es closing b f = Follows es f.trace × (f.closing ≡ closing) × (f.backoff ≡ b)

set_status-After :
    (status : Status) (f : Fields) → After f.trace f.closing f.backoff (set_status status f)
set_status-After status f =
    by_if (After f.trace f.closing f.backoff) (status_eq f.status status) _ _
      (λ same. (([], refl, tt), refl, refl))
      (λ other. ((status_changed status ∷ [], refl, (tt, tt)), refl, refl))

-- The loss is counted where the supervisor tries again.
abbrev pub counted_loss : Env → Next → BackoffState → BackoffState
counted_loss env gives_up b = b
counted_loss env retries b =
    if env.auto_reconnect then record_disconnected env.monotonic_now env.stable_after_ms b else b

abbrev AfterLoss : Env → Next → Fields → Supervisor → Type 0
AfterLoss env next f s = After f.trace f.closing (counted_loss env next f.backoff) s.fields

exhausted-After :
    (env : Env) (es : List SupervisorEvent) (closing : List ℕ) (b : BackoffState) (f : Fields)
    → After es closing b f
    → After es closing b (report env ErrorCode.reconnect_exhausted f)
exhausted-After env es closing b f ((newer, e, all), c, d) =
    let told : SupervisorEvent =
      reported ErrorCode.reconnect_exhausted
        (is_retryable_code ErrorCode.reconnect_exhausted && env.auto_reconnect) in
    ((told ∷ newer, ap (λ x. told ∷ x) e, (refl, all)), c, d)

by_auto :
    (P : BackoffState → Supervisor → Type 0) (a : Bool) (b c : BackoffState) (x y : Supervisor)
    → P c x
    → P b y
    → P (if a then b else c) (if not a then x else y)
by_auto P true b c x y p q = q
by_auto P false b c x y p q = p

record_failed_attempt-AfterLoss :
    (env : Env) (f : Fields) → AfterLoss env retries f (record_failed_attempt env f)
record_failed_attempt-AfterLoss env f =
    let counted : BackoffState =
      record_disconnected env.monotonic_now env.stable_after_ms f.backoff in
    let g : Fields = record f { backoff = counted } in
    by_auto (λ b s. After f.trace f.closing b s.fields) env.auto_reconnect counted f.backoff
      (give_up f) _ (set_status-After has_failed (record f { next_attempt_at = none }))
      (by_if (λ (s : Supervisor). After f.trace f.closing counted s.fields)
        (has_exhausted env.max_attempts counted) _ _
        (λ out.
          exhausted-After env f.trace f.closing counted
            (set_status has_failed (record g { next_attempt_at = none }))
            (set_status-After has_failed (record g { next_attempt_at = none })))
        (λ more. set_status-After is_reconnecting _))

lost-AfterLoss :
    (env : Env) (next : Next) (f : Fields) → AfterLoss env next f (after_loss env next f)
lost-AfterLoss env retries f = record_failed_attempt-AfterLoss env f
lost-AfterLoss env gives_up f = set_status-After has_failed (record f { next_attempt_at = none })

-- An open connection that is lost is reported, closed and, where the supervisor tries again, counted as
-- an attempt: the trace is extended by its flush, the report of its code and the beginning of its close,
-- and then at most by changes of the status and the report that the attempts are exhausted; its close is
-- the one under way, and the supervisor waits for a timer or has failed. And that happens once: when its
-- read then ends or fails, or brings more bytes, a write of it fails, or the platform says that a device
-- is gone, the state, what was reported, opened and closed, and the count of attempts stay as they are.
pub lose_connection-once :
    (env later : Env) (code : ErrorCode) (next : Next) (p g h : ℕ) (result : Reading)
    (port : Option ℕ) (rejected : ErrorCode) (f : Fields)
    → Inv (connected p g) f
    → let lost = lose_connection env code next (connected p g) f in
      Follows
        (close_began f.next_close
          ∷ reported code (is_retryable_code code && env.auto_reconnect)
          ∷ flushes g
          ∷ f.trace)
        lost.fields.trace
      × (lost.fields.closing ≡ f.next_close ∷ [])
      × (lost.fields.backoff ≡ counted_loss env next f.backoff)
      × IsResigned lost.state
      × IsUnchanged lost (step_from later (reading_settles g result) lost.state lost.fields)
      × IsUnchanged lost (step_from later (write_fails h rejected) lost.state lost.fields)
      × IsUnchanged lost (step_from later (device_disconnects port) lost.state lost.fields)
unfolding step_from lose_connection
lose_connection-once env later code next p g h result port rejected f v =
    let lost = lose_connection env code next (connected p g) f in
    let resigned = lost-HasResigned env code next p g f in
    let same : f.generation ≡ g = sym v.view.4 in
    let kept =
      lose_connection-Holds env code next (connected p g) f
        (Inv-IsReady (connected p g) f v refl refl) refl in
    let told = lost-AfterLoss env next (
      close_previous (connected p g) (
        report env code (record (flush_received (connected p g) f) {
          generation = suc f.generation;
          opened_at = none;
        }))) in
    (
      told.0,
      told.1 ∙ ap (λ ks. ks ++ f.next_close ∷ []) v.view.3,
      told.2,
      resigned.0,
      read_after later g result lost kept (resigned.1 ∙ ap suc same),
      write_after later h rejected lost.state lost.fields resigned.0,
      disconnect_after later port lost.state lost.fields resigned.0,
    )
