-- ===== src/Owner/PortSupervisor/StopEnds.antt =====
-- The end of `stop()` of src/owner/port-supervisor.ts.
use serial_broker.Prelude.{
  ℕ, true, false, ◌||◌, ◌==◌, List, [], ◌∷◌, ◌≡◌, inl, inr, refl, sym, ◌∙◌, ap, subst, arith,
  Bool-cases, by_if, ==_refl,
}
use serial_broker.Owner.PortSupervisor.{
  set_status, stop, stop_once, begin_stop, continue_stop, stop_goes_on, finish_close,
}
use serial_broker.Owner.PortSupervisor.State.{
  is_idle, status_eq, ConnectionState, idle, awaiting_permission, listing, failed, stopped, opening,
  connected, reconnecting, StopPhase, not_stopping, draining, closing_down, answering, has_stopped,
  is_stopped, Fields, Supervisor, Env, has_id, drop_id, meets,
}
use serial_broker.Owner.PortSupervisor.Run.{
  Call, stops, stop_continues, close_finishes, step_from, run,
}
use serial_broker.Owner.PortSupervisor.Invariant.{IsAmong, StopView, Holds, drop_id-IsAmong}
use serial_broker.Owner.PortSupervisor.Histories.{run-Holds}

dropped_is_gone : (k : ℕ) (ks : List ℕ) → has_id k (drop_id k ks) ≡ false
dropped_is_gone k [] = refl
dropped_is_gone k (j ∷ ks) = ground (arith, dropped_is_gone k ks)

-- What is left once `k` has ended is among the rest of those awaited.
rest-IsAmong :
    (k : ℕ) (ids closing : List ℕ)
    → IsAmong closing (k ∷ ids)
    → has_id k closing ≡ false
    → IsAmong closing ids
rest-IsAmong k ids closing among gone j there = elim (Bool-cases (k == j)) [
  | inl same ↦ let e : k ≡ j = ground (arith, same) in cc
  | inr other ↦ let h = among j there in ground (arith, other, h)
]

none_among : (closing : List ℕ) → IsAmong closing [] → closing ≡ []
none_among [] among = refl
none_among (k ∷ ks) among = cc (among k (ap (λ b. b || has_id k ks) (==_refl k)))

-- The closes end, one after another.
abbrev pub closes_end : Env → List ℕ → List (Env × Call)
closes_end env [] = []
closes_end env (k ∷ ks) = (env, close_finishes k) ∷ closes_end env ks

-- A close that has ended is not awaited; nothing else of the stop changes.
abbrev Left : List ℕ → StopPhase → Supervisor → Type 0
Left ids phase s = IsAmong s.fields.closing ids × (s.fields.stopping ≡ phase)

finish_close-Left :
    (k : ℕ) (ids : List ℕ) (st : ConnectionState) (f : Fields)
    → IsAmong f.closing (k ∷ ids)
    → Left ids f.stopping (finish_close k st f)
unfolding finish_close
finish_close-Left k ids st f among =
    by_if (Left ids f.stopping) (has_id k f.closing) _ _
      (λ ends. (
        rest-IsAmong k ids (drop_id k f.closing) (drop_id-IsAmong k f.closing (k ∷ ids) among)
            (dropped_is_gone k f.closing),
        refl,
      ))
      (λ unknown. (rest-IsAmong k ids f.closing among unknown, refl))

closes_end-run :
    (env : Env) (ids : List ℕ) (s : Supervisor)
    → IsAmong s.fields.closing ids
    → ((run (closes_end env ids) s).fields.closing ≡ [])
      × ((run (closes_end env ids) s).fields.stopping ≡ s.fields.stopping)
unfolding run step_from
closes_end-run env [] s among = (none_among s.fields.closing among, refl)
closes_end-run env (k ∷ ids) s among =
    let left = finish_close-Left k ids s.state s.fields among in
    let rest = closes_end-run env ids _ left.0 in (rest.0, rest.1 ∙ left.1)

-- The phases after the writes in the queue have been drained, and those after `stop()` was called.
abbrev IsEnding : StopPhase → Type 0
IsEnding not_stopping = ⊥
IsEnding (draining g) = ⊥
IsEnding _ = Unit

abbrev IsBegun : StopPhase → Type 0
IsBegun not_stopping = ⊥
IsBegun _ = Unit

begin_stop-IsBegun : (st : ConnectionState) (f : Fields) → IsBegun (begin_stop st f).fields.stopping
begin_stop-IsBegun idle f = tt
begin_stop-IsBegun awaiting_permission f = tt
begin_stop-IsBegun listing f = tt
begin_stop-IsBegun failed f = tt
begin_stop-IsBegun stopped f = tt
begin_stop-IsBegun (opening p) f = tt
begin_stop-IsBegun (connected p g) f = tt
begin_stop-IsBegun (reconnecting t) f = tt

stop_once-IsBegun :
    (phase : StopPhase) (st : ConnectionState) (f : Fields)
    → f.stopping ≡ phase
    → IsBegun (stop_once phase st f).fields.stopping
stop_once-IsBegun not_stopping st f e = begin_stop-IsBegun st f
stop_once-IsBegun (draining g) st f e = subst IsBegun (sym e) tt
stop_once-IsBegun (closing_down ids) st f e = subst IsBegun (sym e) tt
stop_once-IsBegun answering st f e = subst IsBegun (sym e) tt
stop_once-IsBegun has_stopped st f e = subst IsBegun (sym e) tt

idle-stopping :
    (P : StopPhase → Type 0) (f : Fields) → P f.stopping → P (set_status is_idle f).stopping
idle-stopping P f h =
    by_if (λ (x : Fields). P x.stopping) (status_eq f.status is_idle) _ _ (λ same. h) (λ other. h)

stop_goes_on-IsEnding :
    (phase : StopPhase) (st : ConnectionState) (f : Fields)
    → f.stopping ≡ phase
    → IsBegun phase
    → IsEnding (stop_goes_on phase st f).fields.stopping
stop_goes_on-IsEnding not_stopping st f e b = elim b [ ]
stop_goes_on-IsEnding (draining g) st f e b = tt
stop_goes_on-IsEnding (closing_down ids) st f e b =
    by_if (λ (s : Supervisor). IsEnding s.fields.stopping) (meets ids f.closing) _ _
      (λ waits. subst IsEnding (sym e) tt) (λ ended. tt)
stop_goes_on-IsEnding answering st f e b =
    idle-stopping IsEnding (record f { stopping = has_stopped }) tt
stop_goes_on-IsEnding has_stopped st f e b = subst IsEnding (sym e) tt

-- With no close under way, a stop that has drained the queue has at most one more thing to await.
abbrev IsLast : StopPhase → Type 0
IsLast answering = Unit
IsLast has_stopped = Unit
IsLast _ = ⊥

meets_none : (ids : List ℕ) → meets ids [] ≡ false
meets_none [] = refl
meets_none (i ∷ ids) = meets_none ids

stop_goes_on-IsLast :
    (phase : StopPhase) (st : ConnectionState) (f : Fields)
    → f.stopping ≡ phase
    → f.closing ≡ []
    → IsEnding phase
    → IsLast (stop_goes_on phase st f).fields.stopping
stop_goes_on-IsLast not_stopping st f e n b = elim b [ ]
stop_goes_on-IsLast (draining g) st f e n b = elim b [ ]
stop_goes_on-IsLast (closing_down ids) st f e n b =
    by_if (λ (s : Supervisor). IsLast s.fields.stopping) (meets ids f.closing) _ _
      (λ waits. cc (ap (meets ids) n ∙ meets_none ids)) (λ ended. tt)
stop_goes_on-IsLast answering st f e n b =
    idle-stopping IsLast (record f { stopping = has_stopped }) tt
stop_goes_on-IsLast has_stopped st f e n b = subst IsLast (sym e) tt

stop_goes_on-ends :
    (phase : StopPhase) (st : ConnectionState) (f : Fields)
    → f.stopping ≡ phase
    → IsLast phase
    → (stop_goes_on phase st f).fields.stopping ≡ has_stopped
stop_goes_on-ends not_stopping st f e b = elim b [ ]
stop_goes_on-ends (draining g) st f e b = elim b [ ]
stop_goes_on-ends (closing_down ids) st f e b = elim b [ ]
stop_goes_on-ends answering st f e b =
    idle-stopping (λ p. p ≡ has_stopped) (record f { stopping = has_stopped }) refl
stop_goes_on-ends has_stopped st f e b = e

-- `stop()` is called, and the writes in the queue are drained.
abbrev pub stop_drained : Env → Supervisor → Supervisor
stop_drained env s = run ((env, stops) ∷ (env, stop_continues) ∷ []) s

stop_drained-IsEnding : (env : Env) (s : Supervisor) → IsEnding (stop_drained env s).fields.stopping
unfolding run step_from stop continue_stop
stop_drained-IsEnding env s =
    let after = stop s.state s.fields in
    stop_goes_on-IsEnding after.fields.stopping after.state after.fields refl
      (stop_once-IsBegun s.fields.stopping s.state s.fields refl)

go_on_twice :
    (env : Env) (s : Supervisor)
    → s.fields.closing ≡ []
    → IsEnding s.fields.stopping
    → (run ((env, stop_continues) ∷ (env, stop_continues) ∷ []) s).fields.stopping ≡ has_stopped
unfolding run step_from continue_stop
go_on_twice env s n ending =
    let once = continue_stop s.state s.fields in
    stop_goes_on-ends once.fields.stopping once.state once.fields refl
      (stop_goes_on-IsLast s.fields.stopping s.state s.fields refl n ending)

has_ended :
    (s : Supervisor)
    → Holds s
    → s.fields.stopping ≡ has_stopped
    → (is_stopped s.state ≡ true) × (s.fields.closing ≡ []) × (s.fields.status ≡ is_idle)
has_ended s v e =
    subst (λ p. StopView p (is_stopped s.state) s.fields.closing s.fields.status) e v.stop_view

-- From any state that can be reached: `stop()`, the end of the writes in the queue and the ends of the
-- closes then under way, and of the answers, bring it to its end: it has answered, the supervisor is
-- stopped, no close is under way and the status is `idle`.
pub run-stop :
    (env : Env) (s : Supervisor)
    → Holds s
    → let drained = stop_drained env s in
      let after =
        run
          ((env, stop_continues) ∷ (env, stop_continues) ∷ [])
          (run (closes_end env drained.fields.closing) drained) in
      (after.fields.stopping ≡ has_stopped)
      × (is_stopped after.state ≡ true)
      × (after.fields.closing ≡ [])
      × (after.fields.status ≡ is_idle)
run-stop env s v =
    let drained = stop_drained env s in
    let closed = run (closes_end env drained.fields.closing) drained in
    let closes = closes_end-run env drained.fields.closing drained (λ k there. there) in
    let v' = run-Holds ((env, stop_continues) ∷ (env, stop_continues) ∷ []) closed (
      run-Holds (closes_end env drained.fields.closing) drained
        (run-Holds ((env, stops) ∷ (env, stop_continues) ∷ []) s v)) in
    let ended =
      go_on_twice env closed closes.0
        (subst IsEnding (sym closes.1) (stop_drained-IsEnding env s)) in
    let over = has_ended _ v' ended in (ended, over.0, over.1, over.2)
