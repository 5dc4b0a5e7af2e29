-- ===== src/Owner/PortSupervisor/Connects.antt =====
-- The list of ports settles, and `#connect` goes on: the invariant is kept.
use serial_broker.Prelude.{
  ℕ, Bool, true, false, Option, none, some, List, [], ◌==◌, ◌≡◌, refl, sym, inl, inr, ◌∙◌, ap,
  subst, arith, if◌then◌else◌, lookup, insert, remove, lookup-remove, lookup-insert, by_if,
  by_option, by_some, Table,
}
use serial_broker.Core.Errors.{ErrorCode}
use serial_broker.Owner.PortSupervisor.{
  retries, next_of, is_stale, drop_continuation, keep_continuation, has_nothing_to_lose,
}
use serial_broker.Owner.PortSupervisor.State.{
  is_awaiting_permission, is_connecting, ConnectionState, awaiting_permission, listing, is_stopped,
  Continuation, awaits_teardown, awaits_listing, awaits_open, awaits_read, has_found, has_opened,
  Fields, Supervisor, Env, at,
}
use serial_broker.Owner.PortSupervisor.Resume.{
  found_nothing, take_listing, Listing, lists_port, times_out, refuses, listing_resumes,
  listing_settled, open_threw, found, open_port, found_resumes, continue_found,
}
use serial_broker.Owner.PortSupervisor.Run.{run_listing}
use serial_broker.Owner.PortSupervisor.Invariant.{
  IsFresh, IsResting, IsLooking, Inv, Holds, by_status,
}
use serial_broker.Owner.PortSupervisor.Attempts.{
  HasEnded, give_up-Holds, report-HasEnded, record_failed_attempt-Holds, lose_connection-Holds,
}
use serial_broker.Owner.PortSupervisor.Begins.{IsReady, IsFresh-insert, lookup_self, running}
use serial_broker.Owner.PortSupervisor.Calls.{Inv-IsReady}
use serial_broker.Owner.PortSupervisor.Settles.{
  is_stale_no, dropped-Inv, dropped-HasEnded, goes_on, begin_listing-Holds,
}

-- An operation that throws while its attempt is the current one.
pub open_threw-Holds :
    (env : Env) (g : ℕ) (code : ErrorCode) (st : ConnectionState) (f : Fields)
    → IsReady f
    → f.generation ≡ g
    → has_nothing_to_lose st ≡ false
    → is_stopped st ≡ false
    → Holds (open_threw env g code st f)
open_threw-Holds env g code st f r same l s =
    by_if Holds (is_stale g st f) _ _
      (λ stale. let no : is_stale g st f ≡ false = ground (arith, same, s) in cc)
      (λ current. lose_connection-Holds env code (next_of code) st f r l)

-- `#open` of a port that was found: no close is under way.
open_port-Holds :
    (env : Env) (g a p : ℕ) (throws : Option ErrorCode) (f : Fields)
    → HasEnded f
    → f.generation ≡ g
    → f.closing ≡ []
    → f.status ≡ is_connecting
    → Holds (open_port env g a p throws listing f)
open_port-Holds env g a p none f h same n s = record {
  base = record {
    fresh =
        subst (λ k. IsFresh f.generation (insert k (awaits_open a p) f.continuations)) same
          (IsFresh-insert f.generation (awaits_open a p) f.continuations tt h.ready.base.fresh);
    tied = h.ready.base.tied;
    safe = (sym h.ready.base.tied ∙ n, h.ready.base.safe);
    told = h.ready.base.told;
  };
  view = (
    (
      a,
      subst
          (λ k.
            lookup f.generation (insert k (awaits_open a p) f.continuations)
            ≡ some (awaits_open a p))
          same (lookup_self f.generation (awaits_open a p) f.continuations),
    ),
    h.ready.no_timer,
    s,
    n,
  );
  stop_view = running f.stopping _ _ h.ready.runs;
}
open_port-Holds env g a p (some code) f h same n s =
    open_threw-Holds env g code listing (found g p f)
      (record {
        base = record {
          fresh = h.ready.base.fresh;
          tied = h.ready.base.tied;
          safe = (sym h.ready.base.tied ∙ n, h.ready.base.safe);
          told = h.ready.base.told;
        };
        no_timer = h.ready.no_timer;
        runs = h.ready.runs;
      })
      same refl refl

-- Where no return is awaited, `#connect` has nothing to go on with.
module _ (P : Supervisor → Type 0) (env : Env) (g : ℕ) (throws : Option ErrorCode) where
  found_resting :
      (c : Continuation) (s : Supervisor)
      → P s
      → IsResting (some c)
      → P (found_resumes env g throws c s.state s.fields)
  found_resting (has_found a p) s v r = elim r [ ]
  found_resting (awaits_teardown a ids) s v r = v
  found_resting (awaits_listing a) s v r = v
  found_resting (awaits_open a p) s v r = v
  found_resting (has_opened a p) s v r = v
  found_resting (awaits_read p) s v r = v

  pub continue_found-rests :
      (s : Supervisor)
      → IsResting (lookup g s.fields.continuations)
      → P s
      → P (continue_found env g throws s.state s.fields)
  unfolding continue_found
  continue_found-rests s r v =
      by_option P (lookup g s.fields.continuations) _ _ (λ none_kept. v)
        (λ c e. found_resting c s v (subst IsResting e r))

-- `#connect` goes on after any step of `#findPort` that ends elsewhere.
abbrev HoldsFinding : Env → ℕ → Option ErrorCode → Supervisor → Type 0
HoldsFinding env g throws s = Holds (continue_found env g throws s.state s.fields)

continue_found-Holds :
    (env : Env) (g : ℕ) (throws : Option ErrorCode) (s : Supervisor)
    → Holds s
    → HoldsFinding env g throws s
continue_found-Holds env g throws s v =
    continue_found-rests Holds env g throws s (v.base.fresh.resting g) v

same_branch :
    (b : Bool) (o x y : Option Continuation)
    → y ≡ (if b then o else x)
    → (if b then none else y) ≡ (if b then none else x)
same_branch true o x y e = refl
same_branch false o x y e = e

-- What was kept for `#connect` to go on with leaves nothing behind.
lookup-again :
    (j k : ℕ) (c : Continuation) (m : Table Continuation)
    → lookup k (remove j (insert j c m)) ≡ lookup k (remove j m)
lookup-again j k c m =
    lookup-remove j k (insert j c m)
    ∙ same_branch (j == k) (some c) (lookup k m) (lookup k (insert j c m)) (lookup-insert j k c m)
    ∙ sym (lookup-remove j k m)

pub again-HasEnded :
    (g : ℕ) (c : Continuation) (f : Fields)
    → HasEnded f
    → f.generation ≡ g
    → HasEnded (drop_continuation g (keep_continuation g c f))
again-HasEnded g c f h same =
    let d = dropped-HasEnded g f h.ready same in
    record {
      ready = record {
        base = record {
          fresh = record {
            above =
                λ k after. lookup-again g k c f.continuations ∙ d.ready.base.fresh.above k after;
            resting = λ k.
                subst IsResting (sym (lookup-again g k c f.continuations))
                  (d.ready.base.fresh.resting k);
          };
          tied = h.ready.base.tied;
          safe = h.ready.base.safe;
          told = h.ready.base.told;
        };
        no_timer = h.ready.no_timer;
        runs = h.ready.runs;
      };
      ended = lookup-again g f.generation c f.continuations ∙ d.ended;
    }

-- The port that was just found is the one that is opened.
found_at_once :
    (env : Env) (g a p : ℕ) (throws : Option ErrorCode) (f : Fields)
    → HasEnded f
    → f.generation ≡ g
    → f.closing ≡ []
    → f.status ≡ is_connecting
    → HoldsFinding env g throws (at listing (keep_continuation g (has_found a p) f))
unfolding continue_found
found_at_once env g a p throws f h same n s =
    by_some Holds (lookup g (insert g (has_found a p) f.continuations)) _ _ (has_found a p)
      (lookup_self g (has_found a p) f.continuations)
      (open_port-Holds env g a p throws _ (again-HasEnded g (has_found a p) f h same) same n s)

found_nothing-Holds :
    (env : Env) (g a : ℕ) (f : Fields)
    → HasEnded f
    → f.generation ≡ g
    → f.closing ≡ []
    → f.status ≡ is_connecting
    → Holds (found_nothing env g a listing f)
found_nothing-Holds env g a f h same n s =
    by_if Holds f.connected_while_listing _ _ (λ again. begin_listing-Holds g a f h.ready same n s)
      (λ quiet.
        by_if Holds f.found_port_detached _ _ (λ away. record_failed_attempt-Holds env f h)
          (λ unknown.
            by_status (λ x. Holds (at awaiting_permission x)) is_awaiting_permission f
              (λ t tied safe told. record {
                base = record {
                  fresh = h.ready.base.fresh;
                  tied = h.ready.base.tied ∙ sym tied;
                  safe = safe h.ready.base.safe;
                  told = told h.ready.base.told;
                };
                view = (h.ended, h.ready.no_timer, refl);
                stop_view = running f.stopping _ _ h.ready.runs;
              })))

take_listing-Holds :
    (env : Env) (g a : ℕ) (result : Listing) (throws : Option ErrorCode) (f : Fields)
    → HasEnded f
    → f.generation ≡ g
    → f.closing ≡ []
    → f.status ≡ is_connecting
    → HoldsFinding env g throws (take_listing env g a result listing f)
take_listing-Holds env g a (lists_port (some p)) throws f h same n s =
    found_at_once env g a p throws f h same n s
take_listing-Holds env g a (lists_port none) throws f h same n s =
    continue_found-Holds env g throws _ (found_nothing-Holds env g a f h same n s)
take_listing-Holds env g a times_out throws f h same n s =
    continue_found-Holds env g throws _
      (lose_connection-Holds env ErrorCode.open_timeout retries listing f h.ready refl)
take_listing-Holds env g a refuses throws f h same n s =
    continue_found-Holds env g throws _
      (give_up-Holds _ (report-HasEnded env ErrorCode.web_serial_unavailable f h))

-- The list was awaited with no close under way.
none_closing :
    (o : Option Continuation) (closing : List ℕ) (a : ℕ)
    → IsLooking o closing
    → o ≡ some (awaits_listing a)
    → closing ≡ []
none_closing o closing a (inl (b, js, e', among)) e = cc
none_closing o closing a (inr (b, e', n)) e = n

listing_resumes-Holds :
    (env : Env) (g : ℕ) (result : Listing) (throws : Option ErrorCode) (c : Continuation)
    (st : ConnectionState) (f : Fields)
    → Inv st f
    → lookup g f.continuations ≡ some c
    → HoldsFinding env g throws (listing_resumes env g result c st f)
listing_resumes-Holds env g result throws (awaits_listing a) st f v e =
    by_if (HoldsFinding env g throws) (is_stale g st f) _ _
      (λ stale. continue_found-Holds env g throws _ (dropped-Inv g st f v stale))
      (λ current.
        let is = goes_on g (awaits_listing a) st f v e current in
        let same = is_stale_no g st f current in
        let w : Inv listing f = subst (λ s. Inv s f) is v in
        subst
          (λ s. HoldsFinding env g throws (take_listing env g a result s (drop_continuation g f)))
          (sym is)
          (take_listing-Holds env g a result throws _
            (dropped-HasEnded g f (Inv-IsReady listing f w refl refl) same) same
            (none_closing _ f.closing a w.view.0 (ap (λ k. lookup k f.continuations) same ∙ e))
            w.view.2))
listing_resumes-Holds env g result throws (awaits_teardown a ids) st f v e =
    continue_found-Holds env g throws (at st f) v
listing_resumes-Holds env g result throws (has_found a p) st f v e =
    continue_found-Holds env g throws (at st f) v
listing_resumes-Holds env g result throws (awaits_open a p) st f v e =
    continue_found-Holds env g throws (at st f) v
listing_resumes-Holds env g result throws (has_opened a p) st f v e =
    continue_found-Holds env g throws (at st f) v
listing_resumes-Holds env g result throws (awaits_read p) st f v e =
    continue_found-Holds env g throws (at st f) v

pub run_listing-Holds :
    (env : Env) (g : ℕ) (result : Listing) (throws : Option ErrorCode) (st : ConnectionState)
    (f : Fields)
    → Inv st f
    → Holds (run_listing env g result throws st f)
unfolding run_listing listing_settled
run_listing-Holds env g result throws st f v =
    by_option (HoldsFinding env g throws) (lookup g f.continuations) _ _
      (λ none_kept. continue_found-Holds env g throws (at st f) v)
      (λ c e. listing_resumes-Holds env g result throws c st f v e)
