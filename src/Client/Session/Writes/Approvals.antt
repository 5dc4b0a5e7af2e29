-- ===== src/Client/Session/Writes/Approvals.antt =====
-- Histories of the questions of src/client/configuration-session.ts, and their answers.
use serial_broker.Prelude.{
  ℕ, Bool, true, false, ◌&&◌, ◌==◌, Option, none, some, List, [], ◌∷◌, if◌then◌else◌, is_some,
  is_value, ◌≡◌, refl, sym, ◌∙◌, subst, arith, Text, by_if, by_option,
}
use serial_broker.Owner.PortMatcher.{DeviceFilter}
use serial_broker.Client.AcceptedWrites.{get, key_of}
use serial_broker.Client.AcceptedWrites.Keys.{NoSpace, key_of-injective}
use serial_broker.Client.Session.State.{SessionSettings, new_session}
use serial_broker.Client.Session.Terms.{stops_owner}
use serial_broker.Client.Session.Writes.{
  Job, Question, Desk, new_desk, find_job, asker, approval_of, renew,
}
use serial_broker.Client.Session.Writes.Conserved.{
  Move, happens, dispatches, hears_write, may_begin_asked, hears_approval, settles, move, run_moves,
}
use serial_broker.Client.Session.Writes.Asking.{
  AskedOf, erased-Asked, perform-AskedOf, may_begin-AskedOf, settle_job-AskedOf,
}

renew-AskedOf : (b : Bool) (s : Desk) → AskedOf s → AskedOf (renew b s)
renew-AskedOf true s v = v
renew-AskedOf false s v = v

move-AskedOf : (c : SessionSettings) (m : Move) (s : Desk) → AskedOf s → AskedOf (move c m s)
unfolding move
move-AskedOf c (happens h) s v = renew-AskedOf (stops_owner h s.session) s v
move-AskedOf c (dispatches r payload term refusal) s v =
    by_if AskedOf
      (s.session.is_owner && is_some s.session.supervisor && is_value s.session.term term) _ _
      (λ own. perform-AskedOf _ refusal s v) (λ away. v)
move-AskedOf c (hears_write origin r payload term refusal) s v =
    by_if AskedOf (is_some s.session.supervisor && is_value s.session.term term) _ _
      (λ here. perform-AskedOf _ refusal s v) (λ away. v)
move-AskedOf c (may_begin_asked id) s v = may_begin-AskedOf id s v
move-AskedOf c (hears_approval from r term b) s v =
    by_option AskedOf (approval_of from r term s) _ _ (λ unknown. v)
      (λ id asks. erased-Asked (key_of from r) s.jobs s.next_job s.awaited v)
move-AskedOf c (settles id error) s v = settle_job-AskedOf id error s v

run_moves-AskedOf :
    (c : SessionSettings) (ms : List Move) (s : Desk) → AskedOf s → AskedOf (run_moves c ms s)
unfolding run_moves
run_moves-AskedOf c [] s v = v
run_moves-AskedOf c (m ∷ ms) s v = run_moves-AskedOf c ms _ (move-AskedOf c m s v)

new_desk-AskedOf :
    (own : Text) (device : DeviceFilter) → AskedOf (new_desk own (new_session device))
unfolding get
new_desk-AskedOf own device = record { unused = λ id h. refl; asked = λ key q e. cc (e) }

asker_if :
    (b : Bool) (term : ℕ) (q : Question) (id : ℕ)
    → b ≡ (q.term == term)
    → (if b then some q.job else none) ≡ some id
    → (p : Question) × (some q ≡ some p) × (p.term ≡ term) × (p.job ≡ id)
asker_if false term q id h e = cc (e)
asker_if true term q id h e = (q, refl, ground (arith, h), cc (e))

asker_cases :
    (term : ℕ) (o : Option Question) (id : ℕ)
    → asker term o ≡ some id
    → (q : Question) × (o ≡ some q) × (q.term ≡ term) × (q.job ≡ id)
asker_cases term none id e = cc (e)
asker_cases term (some q) id e = asker_if (q.term == term) term q id refl e

-- In every history, an answer that resolves the question of a job is about that job: it is under way, in
-- the term the answer names, and was given to this tab, under the request the answer names, by the tab
-- the answer is from. No identifier of the answer contains a space.
pub approval_of_its_issuer :
    (c : SessionSettings) (ms : List Move) (own : Text) (device : DeviceFilter) (from r : Text)
    (term id : ℕ)
    → NoSpace from
    → NoSpace r
    → approval_of from r term (run_moves c ms (new_desk own (new_session device))) ≡ some id
    → (j : Job) × (find_job id (run_moves c ms (new_desk own (new_session device))).jobs ≡ some j)
      × (j.request.is_local ≡ false)
      × (j.request.term ≡ term)
      × (j.request.origin ≡ from)
      × (j.request.request_id ≡ r)
approval_of_its_issuer c ms own device from r term id plain_from plain_r e =
    let s : Desk = run_moves c ms (new_desk own (new_session device)) in
    let v : AskedOf s = run_moves-AskedOf c ms _ (new_desk-AskedOf own device) in
    let (q, awaited, of_term, of_job) = asker_cases term (get (key_of from r) s.awaited) id e in
    let (j, found, in_term, named, remote) = v.asked (key_of from r) q awaited in
    let same =
      key_of-injective from r j.request.origin j.request.request_id plain_from plain_r
        (sym named) in
    (
      j,
      subst (λ x. find_job x s.jobs ≡ some j) of_job found,
      remote,
      in_term ∙ of_term,
      sym same.0,
      sym same.1,
    )
