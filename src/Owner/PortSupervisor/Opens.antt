-- ===== src/Owner/PortSupervisor/Opens.antt =====
-- `open()` settles, and `#connect` goes on: the invariant is kept.
use serial_broker.Prelude.{
  ℕ, some, [], ◌≡◌, refl, sym, ◌∙◌, subst, lookup, insert, by_if, by_option, by_some,
}
use serial_broker.Core.Errors.{ErrorCode}
use serial_broker.Core.Backoff.{record_connected}
use serial_broker.Owner.PortSupervisor.{
  retries, next_of, is_stale, drop_continuation, keep_continuation,
}
use serial_broker.Owner.PortSupervisor.State.{
  is_open, ConnectionState, opening, connected, Continuation, awaits_teardown, awaits_listing,
  awaits_open, awaits_read, has_found, has_opened, Fields, Supervisor, Env, at,
}
use serial_broker.Owner.PortSupervisor.Resume.{
  take_opening, Opening, opens, rejects, opening_resumes, opening_settled, Streams, has_streams,
  lacks_streams, throws_at_streams, start_reading, opened_resumes, continue_opened,
}
use serial_broker.Owner.PortSupervisor.Run.{run_opening}
use serial_broker.Owner.PortSupervisor.Invariant.{IsFresh, IsResting, Inv, Holds, by_status}
use serial_broker.Owner.PortSupervisor.Attempts.{HasEnded, lose_connection-Holds}
use serial_broker.Owner.PortSupervisor.Begins.{IsFresh-insert, lookup_self, running}
use serial_broker.Owner.PortSupervisor.Calls.{Inv-IsReady}
use serial_broker.Owner.PortSupervisor.Settles.{is_stale_no, dropped-Inv, dropped-HasEnded, goes_on}
use serial_broker.Owner.PortSupervisor.Connects.{open_threw-Holds, again-HasEnded}

-- `#startReading` of a port that was just opened.
start_reading-Holds :
    (env : Env) (g p : ℕ) (streams : Streams) (f : Fields)
    → HasEnded f
    → f.generation ≡ g
    → f.closing ≡ []
    → Holds (start_reading env g p streams (opening p) f)
start_reading-Holds env g p has_streams f h same n =
    by_status (λ x. Holds (at (connected p g) (keep_continuation g (awaits_read p) x))) is_open
      (record f {
        backoff = record_connected env.monotonic_now f.backoff;
        opened_at = some env.now;
      })
      (λ t tied safe told. record {
        base = record {
          fresh =
              subst (λ k. IsFresh f.generation (insert k (awaits_read p) f.continuations)) same
                (IsFresh-insert f.generation (awaits_read p) f.continuations tt h.ready.base.fresh);
          tied = h.ready.base.tied ∙ sym tied;
          safe = safe h.ready.base.safe;
          told = told h.ready.base.told;
        };
        view = (
          subst
              (λ k.
                lookup f.generation (insert k (awaits_read p) f.continuations)
                ≡ some (awaits_read p))
              same (lookup_self f.generation (awaits_read p) f.continuations),
          h.ready.no_timer,
          refl,
          n,
          sym same,
        );
        stop_view = running f.stopping _ _ h.ready.runs;
      })
start_reading-Holds env g p lacks_streams f h same n =
    lose_connection-Holds env ErrorCode.open_failed retries (opening p) f h.ready refl
start_reading-Holds env g p (throws_at_streams code) f h same n =
    open_threw-Holds env g code (opening p) f h.ready same refl refl

module _ (P : Supervisor → Type 0) (env : Env) (g : ℕ) (streams : Streams) where
  opened_resting :
      (c : Continuation) (s : Supervisor)
      → P s
      → IsResting (some c)
      → P (opened_resumes env g streams c s.state s.fields)
  opened_resting (has_opened a p) s v r = elim r [ ]
  opened_resting (awaits_teardown a ids) s v r = v
  opened_resting (awaits_listing a) s v r = v
  opened_resting (has_found a p) s v r = v
  opened_resting (awaits_open a p) s v r = v
  opened_resting (awaits_read p) s v r = v

  pub continue_opened-rests :
      (s : Supervisor)
      → IsResting (lookup g s.fields.continuations)
      → P s
      → P (continue_opened env g streams s.state s.fields)
  unfolding continue_opened
  continue_opened-rests s r v =
      by_option P (lookup g s.fields.continuations) _ _ (λ none_kept. v)
        (λ c e. opened_resting c s v (subst IsResting e r))

-- `#connect` goes on after any end of `#open`.
abbrev HoldsOpening : Env → ℕ → Streams → Supervisor → Type 0
HoldsOpening env g streams s = Holds (continue_opened env g streams s.state s.fields)

continue_opened-Holds :
    (env : Env) (g : ℕ) (streams : Streams) (s : Supervisor)
    → Holds s
    → HoldsOpening env g streams s
continue_opened-Holds env g streams s v =
    continue_opened-rests Holds env g streams s (v.base.fresh.resting g) v

take_opening-Holds :
    (env : Env) (g a p : ℕ) (result : Opening) (streams : Streams) (f : Fields)
    → HasEnded f
    → f.generation ≡ g
    → f.closing ≡ []
    → HoldsOpening env g streams (take_opening env g a p result (opening p) f)
unfolding continue_opened
take_opening-Holds env g a p opens streams f h same n =
    by_some Holds (lookup g (insert g (has_opened a p) f.continuations)) _ _ (has_opened a p)
      (lookup_self g (has_opened a p) f.continuations)
      (start_reading-Holds env g p streams _ (again-HasEnded g (has_opened a p) f h same) same n)
take_opening-Holds env g a p (rejects code) streams f h same n =
    continue_opened-Holds env g streams _
      (lose_connection-Holds env code (next_of code) (opening p) f h.ready refl)

opening_resumes-Holds :
    (env : Env) (g : ℕ) (result : Opening) (streams : Streams) (c : Continuation)
    (st : ConnectionState) (f : Fields)
    → Inv st f
    → lookup g f.continuations ≡ some c
    → HoldsOpening env g streams (opening_resumes env g result c st f)
opening_resumes-Holds env g result streams (awaits_open a p) st f v e =
    by_if (HoldsOpening env g streams) (is_stale g st f) _ _
      (λ stale. continue_opened-Holds env g streams _ (dropped-Inv g st f v stale))
      (λ current.
        let is = goes_on g (awaits_open a p) st f v e current in
        let same = is_stale_no g st f current in
        let w : Inv (opening p) f = subst (λ s. Inv s f) is v in
        subst
          (λ s.
            HoldsOpening env g streams (take_opening env g a p result s (drop_continuation g f)))
          (sym is)
          (take_opening-Holds env g a p result streams _
            (dropped-HasEnded g f (Inv-IsReady (opening p) f w refl refl) same) same w.view.3))
opening_resumes-Holds env g result streams (awaits_teardown a ids) st f v e =
    continue_opened-Holds env g streams (at st f) v
opening_resumes-Holds env g result streams (awaits_listing a) st f v e =
    continue_opened-Holds env g streams (at st f) v
opening_resumes-Holds env g result streams (has_found a p) st f v e =
    continue_opened-Holds env g streams (at st f) v
opening_resumes-Holds env g result streams (has_opened a p) st f v e =
    continue_opened-Holds env g streams (at st f) v
opening_resumes-Holds env g result streams (awaits_read p) st f v e =
    continue_opened-Holds env g streams (at st f) v

pub run_opening-Holds :
    (env : Env) (g : ℕ) (result : Opening) (streams : Streams) (st : ConnectionState) (f : Fields)
    → Inv st f
    → Holds (run_opening env g result streams st f)
unfolding run_opening opening_settled
run_opening-Holds env g result streams st f v =
    by_option (HoldsOpening env g streams) (lookup g f.continuations) _ _
      (λ none_kept. continue_opened-Holds env g streams (at st f) v)
      (λ c e. opening_resumes-Holds env g result streams c st f v e)
