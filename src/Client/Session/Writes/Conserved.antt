-- ===== src/Client/Session/Writes/Conserved.antt =====
-- Histories of a session together with its writes (src/client/configuration-session.ts).
use serial_broker.Prelude.{
  ℕ, ◌+◌, ◌≤◌, Bool, true, false, ◌&&◌, Option, none, some, List, [], ◌∷◌, is_some, is_value, ◌≡◌,
  refl, ap, arith, Text, by_if, by_option,
}
use serial_broker.Core.Errors.{SerialBrokerError}
use serial_broker.Owner.PortMatcher.{DeviceFilter}
use serial_broker.Client.AcceptedWrites.{
  new, max_remembered_finished_writes, Admission, fresh, in_progress, finished,
}
use serial_broker.Client.Session.State.{SessionSettings, Session, new_session}
use serial_broker.Client.Session.Order.{Holds, new_session-Holds}
use serial_broker.Client.Session.Histories.{Happening, step, step-Holds}
use serial_broker.Client.Session.Terms.{stops_owner, IsNext, step-IsNext}
use serial_broker.Client.Session.Writes.{
  Request, Desk, new_desk, note, perform, dispatch_write, perform_for_peer, find_job, may_begin,
  approval_of, take_approval, settle_job, report_finished, take_up, refusal_of, announce, takes,
  renew, session_step,
}
use serial_broker.Client.Session.Writes.Counts.{
  relogged-Counts, under_way, taken, answered, repeated, IsNext-Counts,
}
use serial_broker.Client.Session.Writes.Carried.{CountsOf, perform-CountsOf}
use serial_broker.Client.Session.Writes.Ended.{settle_job-CountsOf}

-- What happens to the session, and to the writes at its port.
pub data Move : Type 0 where
  happens : Happening → Move
  dispatches : Text → ℕ → ℕ → Option SerialBrokerError → Move
  hears_write : Text → Text → ℕ → ℕ → Option SerialBrokerError → Move
  may_begin_asked : ℕ → Move
  hears_approval : Text → Text → ℕ → Bool → Move
  settles : ℕ → Option SerialBrokerError → Move

unfoldable pub move : SessionSettings → Move → Desk → Desk
move c (happens h) s = session_step c h s
move c (dispatches r payload term refusal) s = dispatch_write r payload term refusal s
move c (hears_write origin r payload term refusal) s =
    perform_for_peer origin r payload term refusal s
move c (may_begin_asked id) s = may_begin id s
move c (hears_approval from r term b) s = take_approval from r term b s
move c (settles id error) s = settle_job id error s

unfoldable pub run_moves : SessionSettings → List Move → Desk → Desk
unfolding move
run_moves c [] s = s
run_moves c (m ∷ ms) s = run_moves c ms (move c m s)

value_known : (o : Option ℕ) (t : ℕ) → is_value o t ≡ true → o ≡ some t
value_known none t h = cc (h)
value_known (some x) t h = let same : x ≡ t = ground (arith, h) in ap some same

last_of : (a b : Bool) → a && b ≡ true → b ≡ true
last_of true b h = h
last_of false b h = cc (h)

dispatch_write-CountsOf :
    (r : Text) (payload term : ℕ) (refusal : Option SerialBrokerError) (s : Desk)
    → CountsOf s
    → CountsOf (dispatch_write r payload term refusal s)
dispatch_write-CountsOf r payload term refusal s v =
    by_if CountsOf
      (s.session.is_owner && is_some s.session.supervisor && is_value s.session.term term) _ _
      (λ own. perform-CountsOf _ refusal s v (
        value_known s.session.term term
          (last_of (s.session.is_owner && is_some s.session.supervisor) _ own)))
      (λ away. relogged-Counts _ _ _ _ _ _ _ v v.balance)

perform_for_peer-CountsOf :
    (origin r : Text) (payload term : ℕ) (refusal : Option SerialBrokerError) (s : Desk)
    → CountsOf s
    → CountsOf (perform_for_peer origin r payload term refusal s)
perform_for_peer-CountsOf origin r payload term refusal s v =
    by_if CountsOf (is_some s.session.supervisor && is_value s.session.term term) _ _
      (λ here. perform-CountsOf _ refusal s v (value_known s.session.term term (last_of _ _ here)))
      (λ away. v)

-- What is only said or asked leaves the counts as they are.
may_begin-CountsOf : (id : ℕ) (s : Desk) → CountsOf s → CountsOf (may_begin id s)
may_begin-CountsOf id s v =
    by_option CountsOf (find_job id s.jobs) _ _ (λ unknown. v)
      (λ j found.
        by_if CountsOf j.request.is_local _ _ (λ own. relogged-Counts _ _ _ _ _ _ _ v v.balance)
          (λ other. relogged-Counts _ _ _ _ _ _ _ v v.balance))

take_approval-CountsOf :
    (from r : Text) (term : ℕ) (b : Bool) (s : Desk)
    → CountsOf s
    → CountsOf (take_approval from r term b s)
take_approval-CountsOf from r term b s v =
    by_option CountsOf (approval_of from r term s) _ _ (λ unknown. v)
      (λ id asked. relogged-Counts _ _ _ _ _ _ _ v v.balance)

renewed-CountsOf :
    (b : Bool) (s : Desk) (next : Session)
    → CountsOf s
    → IsNext b s.session next
    → CountsOf (record (renew b s) { session = next })
renewed-CountsOf true s next v h =
    IsNext-Counts true s.session next s.epoch s.accepted.in_progress
      (new max_remembered_finished_writes).in_progress s.jobs s.log v h
renewed-CountsOf false s next v h =
    IsNext-Counts false s.session next s.epoch s.accepted.in_progress
      (new max_remembered_finished_writes).in_progress s.jobs s.log v h

-- A write leaves the session as it is.
abbrev HoldsOf : Desk → Type 0
HoldsOf s = Holds s.session

report_finished-HoldsOf :
    (q : Request) (error : Option SerialBrokerError) (s : Desk)
    → HoldsOf s
    → HoldsOf (report_finished q error s)
report_finished-HoldsOf q error s v = by_if HoldsOf q.is_local _ _ (λ own. v) (λ other. v)

take_up-HoldsOf : (d : Admission) (q : Request) (s : Desk) → HoldsOf s → HoldsOf (take_up d q s)
take_up-HoldsOf in_progress q s v = v
take_up-HoldsOf (finished e) q s v = report_finished-HoldsOf q e s v
take_up-HoldsOf fresh q s v = v

perform-HoldsOf :
    (q : Request) (refusal : Option SerialBrokerError) (s : Desk)
    → HoldsOf s
    → HoldsOf (perform q refusal s)
perform-HoldsOf q refusal s v =
    by_option HoldsOf (refusal_of q refusal s) _ _ (λ admits. take_up-HoldsOf _ q _ v)
      (λ error refused. report_finished-HoldsOf q (some error) (note (takes q) s) v)

announce-HoldsOf :
    (q : Request) (error : Option SerialBrokerError) (s : Desk)
    → HoldsOf s
    → HoldsOf (announce q error s)
announce-HoldsOf q none s v = v
announce-HoldsOf q (some e) s v = v

abbrev pub IsCounted : Desk → Type 0
IsCounted s = CountsOf s × Holds s.session

pub move-IsCounted :
    (c : SessionSettings) (m : Move) (s : Desk) → IsCounted s → IsCounted (move c m s)
unfolding move
move-IsCounted c (happens h) s v = (
  renewed-CountsOf (stops_owner h s.session) s (step c h s.session) v.0
      (step-IsNext c h s.session v.1),
  step-Holds c h s.session v.1,
)
move-IsCounted c (dispatches r payload term refusal) s v = (
  dispatch_write-CountsOf r payload term refusal s v.0,
  by_if HoldsOf (s.session.is_owner && is_some s.session.supervisor && is_value s.session.term term)
      _ _ (λ own. perform-HoldsOf _ refusal s v.1) (λ away. v.1),
)
move-IsCounted c (hears_write origin r payload term refusal) s v = (
  perform_for_peer-CountsOf origin r payload term refusal s v.0,
  by_if HoldsOf (is_some s.session.supervisor && is_value s.session.term term) _ _
      (λ here. perform-HoldsOf _ refusal s v.1) (λ away. v.1),
)
move-IsCounted c (may_begin_asked id) s v = (
  may_begin-CountsOf id s v.0,
  by_option HoldsOf (find_job id s.jobs) _ _ (λ unknown. v.1)
      (λ j found. by_if HoldsOf j.request.is_local _ _ (λ own. v.1) (λ away. v.1)),
)
move-IsCounted c (hears_approval from r term b) s v = (
  take_approval-CountsOf from r term b s v.0,
  by_option HoldsOf (approval_of from r term s) _ _ (λ unknown. v.1) (λ id asked. v.1),
)
move-IsCounted c (settles id error) s v = (
  settle_job-CountsOf id error s v.0,
  by_option HoldsOf (find_job id s.jobs) _ _ (λ unknown. v.1)
      (λ j found.
        announce-HoldsOf j.request error _ (report_finished-HoldsOf j.request error _ v.1)),
)

run_moves-IsCounted :
    (c : SessionSettings) (ms : List Move) (s : Desk) → IsCounted s → IsCounted (run_moves c ms s)
unfolding run_moves
run_moves-IsCounted c [] s v = v
run_moves-IsCounted c (m ∷ ms) s v = run_moves-IsCounted c ms _ (move-IsCounted c m s v)

new_desk-IsCounted :
    (own : Text) (device : DeviceFilter) → IsCounted (new_desk own (new_session device))
new_desk-IsCounted own device = (
  record {
    once = λ t k. omega arith;
    old = λ t k h. refl;
    known = λ t k h e. refl;
    below = λ t h. cc (h);
    every = tt;
    balance = λ t k. refl;
  },
  new_session-Holds device,
)

-- In every history of a session and of the writes at its port, for each term and each key of a write: at
-- most one write with the key is under way in the term, and each time one was given to the port of the
-- tab in that term, it was answered, or ignored as a repeat, or is that one.
pub run_moves_conserved :
    (c : SessionSettings) (ms : List Move) (own : Text) (device : DeviceFilter) (t : ℕ) (k : Text)
    → (under_way t k (run_moves c ms (new_desk own (new_session device))).jobs ≤ 1)
      × (taken t k (run_moves c ms (new_desk own (new_session device))).log
          ≡ answered t k (run_moves c ms (new_desk own (new_session device))).log
            + repeated t k (run_moves c ms (new_desk own (new_session device))).log
            + under_way t k (run_moves c ms (new_desk own (new_session device))).jobs)
run_moves_conserved c ms own device t k =
    let counts = (run_moves-IsCounted c ms _ (new_desk-IsCounted own device)).0 in
    (counts.once t k, counts.balance t k)
