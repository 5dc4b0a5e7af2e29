-- ===== src/Owner/PortSupervisor/Stale.antt =====
-- What settles for an attempt that is no longer the current one.
use serial_broker.Prelude.{
  ℕ, true, Option, none, some, ◌≡◌, ◌⊎◌, inl, inr, refl, subst, lookup, remove, by_if, by_option,
}
use serial_broker.Core.Errors.{ErrorCode}
use serial_broker.Owner.PortSupervisor.{is_stale, drop_continuation}
use serial_broker.Owner.PortSupervisor.State.{
  ConnectionState, Continuation, awaits_teardown, awaits_listing, awaits_open, awaits_read,
  has_found, has_opened, Fields, Supervisor, Env, at, meets,
}
use serial_broker.Owner.PortSupervisor.Resume.{
  teardown_settled, teardown_resumes, Listing, listing_settled, listing_resumes, continue_found,
  Opening, opening_settled, opening_resumes, Streams, continue_opened, Reading, reading_settled,
  reading_resumes,
}
use serial_broker.Owner.PortSupervisor.Run.{
  Call, starts, retries_now, grants_port, device_connects, stops, stop_continues, follows,
  device_disconnects, timer_fires, close_finishes, teardown_settles, listing_settles,
  opening_settles, reading_settles, write_fails, step_from, run_listing, run_opening,
}
use serial_broker.Owner.PortSupervisor.Invariant.{IsResting, Inv}
use serial_broker.Owner.PortSupervisor.Begins.{IsFresh-remove}
use serial_broker.Owner.PortSupervisor.Connects.{continue_found-rests}
use serial_broker.Owner.PortSupervisor.Opens.{continue_opened-rests}

-- The attempt that a call says something of.
abbrev pub attempt_of : Call → Option ℕ
attempt_of (teardown_settles g) = some g
attempt_of (listing_settles g result throws) = some g
attempt_of (opening_settles g result streams) = some g
attempt_of (reading_settles g result) = some g
attempt_of _ = none

-- A property of the supervisor as it is, and as it is once the attempt is forgotten.
module _ (P : Supervisor → Type 0) (env : Env) (g : ℕ) (st : ConnectionState) (f : Fields)
    (v : Inv st f) (stale : is_stale g st f ≡ true) (as_is : P (at st f))
    (dropped : P (at st (drop_continuation g f))) where
  teardown_stale : (c : Continuation) → P (teardown_resumes g c st f)
  teardown_stale (awaits_teardown a ids) =
      by_if P (meets ids f.closing) _ _ (λ waits. as_is)
        (λ ended. by_if P (is_stale g st f) _ _ (λ s. dropped) (λ current. cc))
  teardown_stale (awaits_listing a) = as_is
  teardown_stale (has_found a p) = as_is
  teardown_stale (awaits_open a p) = as_is
  teardown_stale (has_opened a p) = as_is
  teardown_stale (awaits_read p) = as_is

  pub teardown_settled-stale : P (teardown_settled g st f)
  unfolding teardown_settled
  teardown_settled-stale =
      by_option P (lookup g f.continuations) _ _ (λ none_kept. as_is) (λ c e. teardown_stale c)

  reading_stale : (result : Reading) (c : Continuation) → P (reading_resumes env g result c st f)
  reading_stale result (awaits_read p) =
      by_if P (is_stale g st f) _ _ (λ s. dropped) (λ current. cc)
  reading_stale result (awaits_teardown a ids) = as_is
  reading_stale result (awaits_listing a) = as_is
  reading_stale result (has_found a p) = as_is
  reading_stale result (awaits_open a p) = as_is
  reading_stale result (has_opened a p) = as_is

  pub reading_settled-stale : (result : Reading) → P (reading_settled env g result st f)
  unfolding reading_settled
  reading_settled-stale result =
      by_option P (lookup g f.continuations) _ _ (λ none_kept. as_is)
        (λ c e. reading_stale result c)

  IsResting-dropped : IsResting (lookup g (remove g f.continuations))
  IsResting-dropped = (IsFresh-remove f.generation g f.continuations v.base.fresh).resting g

  module _ (result : Listing) (throws : Option ErrorCode) where
    abbrev GoesOnFinding : Supervisor → Type 0
    GoesOnFinding s = P (continue_found env g throws s.state s.fields)

    found_as_is : GoesOnFinding (at st f)
    found_as_is = continue_found-rests P env g throws (at st f) (v.base.fresh.resting g) as_is

    found_dropped : GoesOnFinding (at st (drop_continuation g f))
    found_dropped = continue_found-rests P env g throws _ IsResting-dropped dropped

    listing_stale : (c : Continuation) → GoesOnFinding (listing_resumes env g result c st f)
    listing_stale (awaits_listing a) =
        by_if GoesOnFinding (is_stale g st f) _ _ (λ s. found_dropped) (λ current. cc)
    listing_stale (awaits_teardown a ids) = found_as_is
    listing_stale (has_found a p) = found_as_is
    listing_stale (awaits_open a p) = found_as_is
    listing_stale (has_opened a p) = found_as_is
    listing_stale (awaits_read p) = found_as_is

    pub run_listing-stale : P (run_listing env g result throws st f)
    unfolding run_listing listing_settled
    run_listing-stale =
        by_option GoesOnFinding (lookup g f.continuations) _ _ (λ none_kept. found_as_is)
          (λ c e. listing_stale c)

  module _ (result : Opening) (streams : Streams) where
    abbrev GoesOnOpening : Supervisor → Type 0
    GoesOnOpening s = P (continue_opened env g streams s.state s.fields)

    opened_as_is : GoesOnOpening (at st f)
    opened_as_is = continue_opened-rests P env g streams (at st f) (v.base.fresh.resting g) as_is

    opened_dropped : GoesOnOpening (at st (drop_continuation g f))
    opened_dropped = continue_opened-rests P env g streams _ IsResting-dropped dropped

    opening_stale : (c : Continuation) → GoesOnOpening (opening_resumes env g result c st f)
    opening_stale (awaits_open a p) =
        by_if GoesOnOpening (is_stale g st f) _ _ (λ s. opened_dropped) (λ current. cc)
    opening_stale (awaits_teardown a ids) = opened_as_is
    opening_stale (awaits_listing a) = opened_as_is
    opening_stale (has_found a p) = opened_as_is
    opening_stale (has_opened a p) = opened_as_is
    opening_stale (awaits_read p) = opened_as_is

    pub run_opening-stale : P (run_opening env g result streams st f)
    unfolding run_opening opening_settled
    run_opening-stale =
        by_option GoesOnOpening (lookup g f.continuations) _ _ (λ none_kept. opened_as_is)
          (λ c e. opening_stale c)

  pub stale_by : (c : Call) → attempt_of c ≡ some g → P (step_from env c st f)
  unfolding step_from
  stale_by (teardown_settles k) e =
      let same : g ≡ k = cc in subst (λ j. P (teardown_settled j st f)) same teardown_settled-stale
  stale_by (listing_settles k result throws) e =
      let same : g ≡ k = cc in
      subst (λ j. P (run_listing env j result throws st f)) same (run_listing-stale result throws)
  stale_by (opening_settles k result streams) e =
      let same : g ≡ k = cc in
      subst (λ j. P (run_opening env j result streams st f)) same (run_opening-stale result streams)
  stale_by (reading_settles k result) e =
      let same : g ≡ k = cc in
      subst (λ j. P (reading_settled env j result st f)) same (reading_settled-stale result)
  stale_by (starts b) e = cc
  stale_by retries_now e = cc
  stale_by grants_port e = cc
  stale_by device_connects e = cc
  stale_by stops e = cc
  stale_by stop_continues e = cc
  stale_by (follows matches) e = cc
  stale_by (device_disconnects port) e = cc
  stale_by (timer_fires t) e = cc
  stale_by (close_finishes k) e = cc
  stale_by (write_fails h code) e = cc

-- Whatever the closes, the list of ports, `open()` or a read give for an attempt that is not the
-- current one, or of a supervisor that is stopped, changes nothing but that the attempt may be
-- forgotten: no state, no status, nothing reported, no port opened or closed.
pub step_from-stale :
    (env : Env) (c : Call) (g : ℕ) (st : ConnectionState) (f : Fields)
    → Inv st f
    → attempt_of c ≡ some g
    → is_stale g st f ≡ true
    → (step_from env c st f ≡ at st f) ⊎ (step_from env c st f ≡ at st (drop_continuation g f))
step_from-stale env c g st f v of_attempt stale =
    stale_by (λ s. (s ≡ at st f) ⊎ (s ≡ at st (drop_continuation g f))) env g st f v stale
      (inl refl) (inr refl) c of_attempt
