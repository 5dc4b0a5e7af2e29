-- ===== src/Owner/PortSupervisor/Settles.antt =====
-- What an attempt awaits settles: the invariant is kept, up to the port that is found.
use serial_broker.Prelude.{
  ℕ, true, false, Option, none, some, List, [], ◌==◌, ◌≡◌, refl, sym, inl, inr, ◌∙◌, ap, subst,
  arith, lookup, remove, lookup-remove, Bool-cases, by_if, by_option, ==_refl, ==_iff,
}
use serial_broker.Owner.PortSupervisor.{retries, is_stale, drop_continuation, begin_listing}
use serial_broker.Owner.PortSupervisor.State.{
  is_connecting, Status, ConnectionState, idle, awaiting_permission, listing, failed, stopped,
  opening, connected, reconnecting, is_stopped, Continuation, awaits_teardown, awaits_listing,
  awaits_open, awaits_read, has_found, has_opened, Fields, Env, at, meets,
}
use serial_broker.Owner.PortSupervisor.Resume.{
  teardown_resumes, teardown_settled, take_reading, Reading, reads, ends, fails, reading_resumes,
  reading_settled,
}
use serial_broker.Owner.PortSupervisor.Invariant.{IsAmong, IsLooking, View, Inv, Holds}
use serial_broker.Owner.PortSupervisor.Attempts.{HasEnded, lose_connection-Holds}
use serial_broker.Owner.PortSupervisor.Begins.{IsReady, IsFresh-remove, find_port-Holds}
use serial_broker.Owner.PortSupervisor.Calls.{Inv-IsReady}
use serial_broker.Owner.PortSupervisor.Stops.{all_ended}

-- Who goes on is of the current generation.
pub is_stale_no :
    (g : ℕ) (st : ConnectionState) (f : Fields) → is_stale g st f ≡ false → f.generation ≡ g
is_stale_no g st f h = ground (arith, h)

pub is_stale_stopped :
    (g : ℕ) (st : ConnectionState) (f : Fields)
    → is_stale g st f ≡ true
    → f.generation ≡ g
    → is_stopped st ≡ true
is_stale_stopped g st f h e = ground (arith, h, e)

View-stopped :
    (st : ConnectionState) (c : Option Continuation) (timers : List ℕ) (status : Status)
    (closing : List ℕ) (g : ℕ)
    → View st c timers status closing g
    → is_stopped st ≡ true
    → c ≡ none
View-stopped stopped c timers status closing g v h = v.0
View-stopped idle c timers status closing g v h = cc
View-stopped awaiting_permission c timers status closing g v h = cc
View-stopped listing c timers status closing g v h = cc
View-stopped failed c timers status closing g v h = cc
View-stopped (opening p) c timers status closing g v h = cc
View-stopped (connected p k) c timers status closing g v h = cc
View-stopped (reconnecting t) c timers status closing g v h = cc

-- What a stale attempt awaited is not what the state is about.
dropped_same :
    (g : ℕ) (st : ConnectionState) (f : Fields)
    → Inv st f
    → is_stale g st f ≡ true
    → lookup f.generation f.continuations ≡ lookup f.generation (remove g f.continuations)
dropped_same g st f v h = elim (Bool-cases (g == f.generation)) [
  | inl same ↦
      let over = is_stale_stopped g st f h (sym ((==_iff g f.generation).0 same)) in
      View-stopped st _ _ _ _ _ v.view over
      ∙ sym (lookup-remove g f.generation f.continuations ∙ rw same refl)
  | inr other ↦ sym (lookup-remove g f.generation f.continuations ∙ rw other refl)
]

pub dropped-Inv :
    (g : ℕ) (st : ConnectionState) (f : Fields)
    → Inv st f
    → is_stale g st f ≡ true
    → Holds (at st (drop_continuation g f))
dropped-Inv g st f v h = record {
  base = record {
    fresh = IsFresh-remove f.generation g f.continuations v.base.fresh;
    tied = v.base.tied;
    safe = v.base.safe;
    told = v.base.told;
  };
  view =
      subst (λ c. View st c f.timers f.status f.closing f.generation) (dropped_same g st f v h)
        v.view;
  stop_view = v.stop_view;
}

pub dropped-HasEnded :
    (g : ℕ) (f : Fields) → IsReady f → f.generation ≡ g → HasEnded (drop_continuation g f)
dropped-HasEnded g f r e = record {
  ready = record {
    base = record {
      fresh = IsFresh-remove f.generation g f.continuations r.base.fresh;
      tied = r.base.tied;
      safe = r.base.safe;
      told = r.base.told;
    };
    no_timer = r.no_timer;
    runs = r.runs;
  };
  ended =
      lookup-remove g f.generation f.continuations ∙ rw (sym e) (rw (==_refl f.generation) refl);
}

-- The state of the attempt that awaits this.
abbrev pub expects : Continuation → ℕ → ConnectionState
expects (awaits_teardown a ids) g = listing
expects (awaits_listing a) g = listing
expects (has_found a p) g = listing
expects (awaits_open a p) g = opening p
expects (has_opened a p) g = opening p
expects (awaits_read p) g = connected p g

state_of :
    (st : ConnectionState) (o : Option Continuation) (timers : List ℕ) (status : Status)
    (closing : List ℕ) (g : ℕ) (c : Continuation)
    → View st o timers status closing g
    → o ≡ some c
    → st ≡ expects c g
state_of idle o timers status closing g c v e = cc (v.0)
state_of awaiting_permission o timers status closing g c v e = cc (v.0)
state_of failed o timers status closing g c v e = cc (v.0)
state_of stopped o timers status closing g c v e = cc (v.0)
state_of (reconnecting t) o timers status closing g c v e = cc (v.0)
state_of listing o timers status closing g c (inl (a, ids, e', among), t, s) e =
    let same : awaits_teardown a ids ≡ c = cc in subst (λ x. listing ≡ expects x g) same refl
state_of listing o timers status closing g c (inr (a, e', n), t, s) e =
    let same : awaits_listing a ≡ c = cc in subst (λ x. listing ≡ expects x g) same refl
state_of (opening p) o timers status closing g c ((a, e'), t, s, n) e =
    let same : awaits_open a p ≡ c = cc in subst (λ x. opening p ≡ expects x g) same refl
state_of (connected p h) o timers status closing g c (e', t, s, n, i) e =
    let same : awaits_read p ≡ c = cc in
    subst (λ x. connected p x ≡ expects c g) (sym i)
      (subst (λ x. connected p g ≡ expects x g) same refl)

-- The state in which the current attempt goes on.
pub goes_on :
    (g : ℕ) (c : Continuation) (st : ConnectionState) (f : Fields)
    → Inv st f
    → lookup g f.continuations ≡ some c
    → is_stale g st f ≡ false
    → st ≡ expects c g
goes_on g c st f v e current =
    let same : f.generation ≡ g = is_stale_no g st f current in
    state_of st _ f.timers f.status f.closing g c
      (subst (λ n. View st (lookup n f.continuations) f.timers f.status f.closing n) same v.view) e

-- The listing begins, with no close under way.
pub begin_listing-Holds :
    (g a : ℕ) (f : Fields)
    → IsReady f
    → f.generation ≡ g
    → f.closing ≡ []
    → f.status ≡ is_connecting
    → Holds (at listing (begin_listing g a f))
begin_listing-Holds g a f r same n s =
    subst (λ k. Holds (at listing (begin_listing k a f))) same
      (find_port-Holds a [] f n r.base r.no_timer s r.runs)

all_closed :
    (o : Option Continuation) (closing : List ℕ) (a : ℕ) (ids : List ℕ)
    → IsLooking o closing
    → o ≡ some (awaits_teardown a ids)
    → meets ids closing ≡ false
    → closing ≡ []
all_closed o closing a ids (inl (b, js, e', among)) e m =
    let same : js ≡ ids = cc in all_ended ids closing (subst (λ x. IsAmong closing x) same among) m
all_closed o closing a ids (inr (b, e', n)) e m = n

module _ (g : ℕ) (f : Fields) (same : f.generation ≡ g) where
  teardown_ended :
      (a : ℕ) (ids : List ℕ)
      → Inv listing f
      → lookup g f.continuations ≡ some (awaits_teardown a ids)
      → meets ids f.closing ≡ false
      → Holds (at listing (begin_listing g a f))
  teardown_ended a ids v e ended =
      let awaited = ap (λ k. lookup k f.continuations) same ∙ e in
      begin_listing-Holds g a f (Inv-IsReady listing f v refl refl) same
        (all_closed _ f.closing a ids v.view.0 awaited ended) v.view.2

  take_reading-Holds :
      (env : Env) (p : ℕ) (result : Reading)
      → Inv (connected p g) f
      → Holds (take_reading env g result (connected p g) f)
  take_reading-Holds env p (reads bytes) v = record {
    base = record {
      fresh = v.base.fresh;
      tied = v.base.tied;
      safe = (tt, v.base.safe);
      told = v.base.told;
    };
    view = v.view;
    stop_view = v.stop_view;
  }
  take_reading-Holds env p ends v =
      lose_connection-Holds env _ retries (connected p g) _
        (dropped-HasEnded g f (Inv-IsReady (connected p g) f v refl refl) same).ready refl
  take_reading-Holds env p (fails code) v =
      lose_connection-Holds env code retries (connected p g) _
        (dropped-HasEnded g f (Inv-IsReady (connected p g) f v refl refl) same).ready refl

teardown_resumes-Holds :
    (g : ℕ) (c : Continuation) (st : ConnectionState) (f : Fields)
    → Inv st f
    → lookup g f.continuations ≡ some c
    → Holds (teardown_resumes g c st f)
teardown_resumes-Holds g (awaits_teardown a ids) st f v e =
    by_if Holds (meets ids f.closing) _ _ (λ waits. v)
      (λ ended.
        by_if Holds (is_stale g st f) _ _ (λ stale. dropped-Inv g st f v stale)
          (λ current.
            let is = goes_on g (awaits_teardown a ids) st f v e current in
            subst (λ s. Holds (at s (begin_listing g a f))) (sym is)
              (teardown_ended g f (is_stale_no g st f current) a ids (subst (λ s. Inv s f) is v) e
                ended)))
teardown_resumes-Holds g (awaits_listing a) st f v e = v
teardown_resumes-Holds g (has_found a p) st f v e = v
teardown_resumes-Holds g (awaits_open a p) st f v e = v
teardown_resumes-Holds g (has_opened a p) st f v e = v
teardown_resumes-Holds g (awaits_read p) st f v e = v

pub teardown_settled-Holds :
    (g : ℕ) (st : ConnectionState) (f : Fields) → Inv st f → Holds (teardown_settled g st f)
unfolding teardown_settled
teardown_settled-Holds g st f v =
    by_option Holds (lookup g f.continuations) _ _ (λ none_kept. v)
      (λ c e. teardown_resumes-Holds g c st f v e)

reading_resumes-Holds :
    (env : Env) (g : ℕ) (result : Reading) (c : Continuation) (st : ConnectionState) (f : Fields)
    → Inv st f
    → lookup g f.continuations ≡ some c
    → Holds (reading_resumes env g result c st f)
reading_resumes-Holds env g result (awaits_read p) st f v e =
    by_if Holds (is_stale g st f) _ _ (λ stale. dropped-Inv g st f v stale)
      (λ current.
        let is = goes_on g (awaits_read p) st f v e current in
        subst (λ s. Holds (take_reading env g result s f)) (sym is)
          (take_reading-Holds g f (is_stale_no g st f current) env p result
            (subst (λ s. Inv s f) is v)))
reading_resumes-Holds env g result (awaits_teardown a ids) st f v e = v
reading_resumes-Holds env g result (awaits_listing a) st f v e = v
reading_resumes-Holds env g result (has_found a p) st f v e = v
reading_resumes-Holds env g result (awaits_open a p) st f v e = v
reading_resumes-Holds env g result (has_opened a p) st f v e = v

pub reading_settled-Holds :
    (env : Env) (g : ℕ) (result : Reading) (st : ConnectionState) (f : Fields)
    → Inv st f
    → Holds (reading_settled env g result st f)
unfolding reading_settled
reading_settled-Holds env g result st f v =
    by_option Holds (lookup g f.continuations) _ _ (λ none_kept. v)
      (λ c e. reading_resumes-Holds env g result c st f v e)
