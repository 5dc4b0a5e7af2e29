-- ===== src/Owner/PortSupervisor/Begins.antt =====
-- An attempt that begins keeps the invariant.
use serial_broker.Prelude.{
  ℕ, suc, false, none, some, List, [], ◌∷◌, ◌==◌, ◌≡◌, refl, sym, inl, inr, ◌∙◌, subst, arith,
  lookup, insert, remove, lookup-insert, lookup-remove, by_if, ==_refl, Table,
}
use serial_broker.Core.Backoff.{record_attempt}
use serial_broker.Owner.PortSupervisor.{find_port, begin_attempt}
use serial_broker.Owner.PortSupervisor.State.{
  Status, is_connecting, listing, Continuation, awaits_teardown, awaits_listing, StopPhase,
  not_stopping, draining, closing_down, answering, has_stopped, Fields, at, Env,
}
use serial_broker.Owner.PortSupervisor.Invariant.{
  IsFresh, IsResting, IsAmong, StopView, Base, Holds, by_status,
}

pub IsFresh-insert :
    (g : ℕ) (c : Continuation) (m : Table Continuation)
    → IsResting (some c)
    → IsFresh g m
    → IsFresh g (insert g c m)
IsFresh-insert g c m r h = record {
  above = λ k after.
      let other : g == k ≡ false = ground arith in
      lookup-insert g k c m ∙ rw other (h.above k after);
  resting = λ k.
      subst IsResting (sym (lookup-insert g k c m))
        (by_if IsResting (g == k) (some c) (lookup k m) (λ same. r) (λ other. h.resting k));
}

pub IsFresh-remove : (g j : ℕ) (m : Table Continuation) → IsFresh g m → IsFresh g (remove j m)
IsFresh-remove g j m h = record {
  above = λ k after. lookup-remove j k m ∙ ground (arith, h.above k after);
  resting = λ k.
      subst IsResting (sym (lookup-remove j k m))
        (by_if IsResting (j == k) none (lookup k m) (λ same. tt) (λ other. h.resting k));
}

pub IsFresh-suc : (g : ℕ) (m : Table Continuation) → IsFresh g m → IsFresh (suc g) m
IsFresh-suc g m h = record {
  above = λ k after. h.above k (omega (arith, after));
  resting = h.resting;
}

pub lookup_self :
    (g : ℕ) (c : Continuation) (m : Table Continuation) → lookup g (insert g c m) ≡ some c
lookup_self g c m = lookup-insert g g c m ∙ rw (==_refl g) refl

-- A supervisor that is not being stopped.
pub running :
    (phase : StopPhase) (closing : List ℕ) (status : Status)
    → phase ≡ not_stopping
    → StopView phase false closing status
running not_stopping closing status n = refl
running (draining g) closing status n = cc
running (closing_down ids) closing status n = cc
running answering closing status n = cc
running has_stopped closing status n = cc

-- `#findPort` begins, in the current attempt.
pub find_port-Holds :
    (attempt : ℕ) (closing : List ℕ) (x : Fields)
    → x.closing ≡ closing
    → Base x
    → x.timers ≡ []
    → x.status ≡ is_connecting
    → x.stopping ≡ not_stopping
    → Holds (at listing (find_port x.generation attempt closing x))
find_port-Holds attempt [] x e b t s n = record {
  base = record {
    fresh = IsFresh-insert x.generation (awaits_listing attempt) x.continuations tt b.fresh;
    tied = b.tied;
    safe = (tt, b.safe);
    told = b.told;
  };
  view =
      (inr (attempt, lookup_self x.generation (awaits_listing attempt) x.continuations, e), t, s);
  stop_view = running x.stopping _ _ n;
}
find_port-Holds attempt (k ∷ ks) x e b t s n = record {
  base = record {
    fresh =
        IsFresh-insert x.generation (awaits_teardown attempt (k ∷ ks)) x.continuations tt b.fresh;
    tied = b.tied;
    safe = b.safe;
    told = b.told;
  };
  view = (
    inl (
      attempt,
      k ∷ ks,
      lookup_self x.generation (awaits_teardown attempt (k ∷ ks)) x.continuations,
      subst (λ c. IsAmong c (k ∷ ks)) (sym e) (λ j there. there),
    ),
    t,
    s,
  );
  stop_view = running x.stopping _ _ n;
}

-- What an attempt begins from.
pub record IsReady (f : Fields) : Type 0 where
  pub base : Base f
  pub no_timer : f.timers ≡ []
  pub runs : f.stopping ≡ not_stopping

abbrev attempt_fields : Fields → Fields
attempt_fields f = record f {
  generation = suc f.generation;
  backoff = record_attempt f.backoff;
  next_attempt_at = none;
}

pub begin_attempt-Holds : (env : Env) (f : Fields) → IsReady f → Holds (begin_attempt env f)
unfolding begin_attempt
begin_attempt-Holds env f r =
    by_status (λ x. Holds (at listing (find_port (suc f.generation) x.backoff.attempt f.closing x)))
      is_connecting (attempt_fields f)
      (λ t same safe told.
        find_port-Holds (record_attempt f.backoff).attempt f.closing
          (record (attempt_fields f) { status = is_connecting; trace = t }) refl
          (record {
            fresh = IsFresh-suc f.generation f.continuations r.base.fresh;
            tied = r.base.tied ∙ sym same;
            safe = safe r.base.safe;
            told = told r.base.told;
          })
          r.no_timer refl r.runs)
