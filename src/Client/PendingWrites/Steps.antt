-- ===== src/Client/PendingWrites/Steps.antt =====
-- The methods of src/client/pending-writes.ts against the invariant.
use serial_broker.Prelude.{
  ℕ, true, false, Option, none, some, List, [], ◌∷◌, ◌≡◌, ◌⊎◌, not, ◌||◌, refl, inl, inr, arith,
  lookup, insert, values, keys, lookup-insert, Bool-cases, Option-cases, ==_refl, subst, sym, ◌∙◌,
  is_value, is_some,
}
use serial_broker.Core.Errors.{SerialBrokerError}
use serial_broker.Client.Deadline.{run_timer}
use serial_broker.Client.PendingWrites.{
  PendingWrite, Host, Tracker, TraceEvent, added, dispatched, approved, handed_back,
  dispatch_target, new_write, or_started, take_back, timeout_error, dispatch, settle, add,
  run_deadline, approve, handle_result, is_begun_in, fail_started, dispatch_each, dispatch_waiting,
  handle_term_ended, resend, resend_each, resend_unstarted, fail_each, fail_all, Call, adds,
  approves, results, ends_term, resends, dispatches, settles, fails_all, runs_deadline, step, run,
  may_resend, is_handed_back, owner_lost_error, empty,
}
use serial_broker.Client.PendingWrites.Trace.{
  request_of, IsAllowed, Agrees, Inv, Agrees-other, Agrees-insert, Agrees-remove, IsWithAddressee,
  MayMove, IsFresh, IsKeyed-insert, IsKeyed-remove, AreListed, AreListed-insert, AreListed-values,
}

empty-Inv : Inv empty
unfolding lookup
empty-Inv = record { agrees = λ r. refl; keyed = tt; safe = tt }

module _ (s : Tracker) (v : Inv s) where
  -- A new value for an entry, with an event about it.
  put-Inv :
      (k : ℕ) (p : PendingWrite) (e : TraceEvent)
      → request_of e ≡ k
      → IsAllowed e s.trace
      → Agrees k (some p) (e ∷ s.trace)
      → Inv (record { writes = insert k p s.writes; trace = e ∷ s.trace })
  put-Inv k p e names allowed here = record {
    agrees = λ j.
        Agrees-insert k j p s.writes (e ∷ s.trace) here
          λ ne. Agrees-other e j (lookup j s.writes) s.trace (λ q. ne (sym names ∙ q)) (v.agrees j);
    keyed = IsKeyed-insert k p s.writes here.0 v.keyed;
    safe = (allowed, v.safe);
  }

  -- A new value for an entry, of which the trace says the same.
  change-Inv :
      (k : ℕ) (p : PendingWrite)
      → Agrees k (some p) s.trace
      → Inv (record s { writes = insert k p s.writes })
  change-Inv k p here = record {
    agrees = λ j. Agrees-insert k j p s.writes s.trace here (λ _. v.agrees j);
    keyed = IsKeyed-insert k p s.writes here.0 v.keyed;
    safe = v.safe;
  }

  found-Agrees : (k : ℕ) (p : PendingWrite) → lookup k s.writes ≡ some p → Agrees k (some p) s.trace
  found-Agrees k p e = subst (λ o. Agrees k o s.trace) e (v.agrees k)

-- Only a write that has not begun is handed on.
pub dispatch_target_unstarted :
    (h : Host) (p : PendingWrite) {t : ℕ} → dispatch_target h p ≡ some t → p.started_term ≡ none
unfolding dispatch_target
dispatch_target_unstarted h p e = ground arith

dispatch_target-MayMove :
    (h : Host) (p : PendingWrite) (addressed : Option ℕ) {t : ℕ}
    → addressed ≡ p.addressed_term
    → dispatch_target h p ≡ some t
    → MayMove h.is_term_ended addressed t
unfolding dispatch_target
dispatch_target-MayMove h p none e goes = tt
dispatch_target-MayMove h p (some a) e goes = ground arith

pub dispatch-Inv :
    (h : Host) (p : PendingWrite) (s : Tracker)
    → Inv s
    → lookup p.request_id s.writes ≡ some p
    → Inv (dispatch h p s)
unfolding dispatch
dispatch-Inv h p s v e = elim (Option-cases (dispatch_target h p)) [
  | inl stays ↦ rw (stays, dispatch) v
  | inr (t, goes) ↦
      let a = found-Agrees s v p.request_id p e in
      let n = dispatch_target_unstarted h p goes in
      rw (goes, dispatch)
        (put-Inv s v p.request_id (record p { is_dispatched = true; addressed_term = some t })
          (dispatched p.request_id t h.is_term_ended) refl
          (a.1, a.2 ∙ n, dispatch_target-MayMove h p _ a.3 goes)
          (refl, a.1, a.2, rw (==_refl p.request_id), rw n tt))
]

pub settle-Inv :
    (r : ℕ) (error : Option SerialBrokerError) (s : Tracker) → Inv s → Inv (settle r error s)
unfolding settle
settle-Inv r error s v = elim (Option-cases (lookup r s.writes)) [
  | inl gone ↦ rw (gone, settle) v
  | inr (p, e) ↦
      let a = found-Agrees s v r p e in
      rw (e, settle)
        (record {
          agrees = λ j.
              Agrees-remove r j s.writes _ (rw (==_refl r))
                λ ne. Agrees-other _ j (lookup j s.writes) s.trace ne (v.agrees j);
          keyed = IsKeyed-remove r s.writes v.keyed;
          safe = (a.1, v.safe);
        })
]

pub add-Inv : (h : Host) (r : ℕ) (payload : List ℕ) (s : Tracker) → Inv s → Inv (add h r payload s)
unfolding add
add-Inv h r payload s v =
    dispatch-Inv h (new_write h r payload) _
      (put-Inv s v r (new_write h r payload) (added r) refl tt
        (refl, rw (==_refl r), rw (==_refl r), rw (==_refl r), tt))
      (rw (lookup-insert r r) (rw (==_refl r)))

or_started_lem :
    (started addressed grant : Option ℕ) (term : ℕ)
    → grant ≡ started
    → IsWithAddressee started addressed
    → addressed ≡ some term
    → ((grant ≡ none) ⊎ (grant ≡ some term))
      × (some term ≡ or_started started term)
      × IsWithAddressee (or_started started term) addressed
or_started_lem none addressed grant term g w e = (inl g, refl, e)
or_started_lem (some t) addressed grant term g w e = (inr (g ∙ sym w ∙ e), sym e ∙ w, w)

approve-Inv : (r term : ℕ) (s : Tracker) → Inv s → Inv (approve r term s).0
unfolding approve
approve-Inv r term s v = elim (Option-cases (lookup r s.writes)) [
  | inl gone ↦ rw (gone, approve) v
  | inr (p, e) ↦ elim (Bool-cases (is_value p.addressed_term term)) [
    | inl asked ↦
        let a = found-Agrees s v r p e in
        let (grant, started, kept) =
          or_started_lem p.started_term p.addressed_term _ term a.2 a.4 (ground arith) in
        rw (e, approve)
          (rw asked (
            put-Inv s v r _ (approved r term) refl (a.1, a.3 ∙ ground arith, grant)
              (a.0, a.1, rw (==_refl r) started, a.3, kept)))
    | inr wrong ↦ rw (e, approve) (rw wrong v)
  ]
]

handed_back-Inv :
    (h : Host) (r term : ℕ) (p : PendingWrite) (s : Tracker)
    → Inv s
    → lookup r s.writes ≡ some p
    → p.addressed_term ≡ some term
    → Inv (
        dispatch h (take_back p) (record {
          writes = insert r (take_back p) s.writes;
          trace = handed_back r term ∷ s.trace;
        }))
handed_back-Inv h r term p s v e asked =
    let a = found-Agrees s v r p e in
    let grant = or_started_lem p.started_term p.addressed_term _ term a.2 a.4 asked in
    dispatch-Inv h (take_back p) _
      (put-Inv s v r (take_back p) (handed_back r term) refl (a.1, a.3 ∙ asked, grant.0)
        (a.0, a.1, rw (==_refl r), a.3, tt))
      (rw a.0 (rw (lookup-insert r r) (rw (==_refl r))))

handle_result-Inv :
    (h : Host) (r : ℕ) (term : Option ℕ) (error : Option SerialBrokerError) (s : Tracker)
    → Inv s
    → Inv (handle_result h r term error s)
unfolding handle_result
handle_result-Inv h r none error s v = v
handle_result-Inv h r (some term) error s v = elim (Option-cases (lookup r s.writes)) [
  | inl gone ↦ rw (gone, handle_result) v
  | inr (p, e) ↦ elim (Bool-cases (is_value p.addressed_term term)) [
    | inr wrong ↦ rw (e, handle_result) (rw wrong v)
    | inl asked ↦ elim (Bool-cases (is_handed_back error)) [
      | inr done ↦ rw (e, handle_result) (rw (asked, done) (settle-Inv r error s v))
      | inl back ↦
          rw (e, handle_result) (rw (asked, back) (handed_back-Inv h r term p s v e (ground arith)))
    ]
  ]
]

-- Whatever the timer decides, the entry it leaves differs in its deadline only.
run_deadline-Inv : (h : Host) (r : ℕ) (s : Tracker) → Inv s → Inv (run_deadline h r s)
unfolding run_deadline
run_deadline-Inv h r s v = elim (Option-cases (lookup r s.writes)) [
  | inl gone ↦ rw (gone, run_deadline) v
  | inr (p, e) ↦
      let a = found-Agrees s v r p e in
      let (d, expired) = run_timer h.monotonic_now p.deadline in
      let w = change-Inv s v r (record p { deadline = d }) a in
      rw (e, run_deadline)
        (elim (Bool-cases expired) [
          | inl yes_ ↦ rw yes_ (settle-Inv r (some (timeout_error h p)) _ w)
          | inr no_ ↦ rw no_ w
        ])
]

pub fail_started-Inv :
    (h : Host) (term : ℕ) (ps : List PendingWrite) (s : Tracker)
    → Inv s
    → Inv (fail_started h term ps s)
unfolding fail_started
fail_started-Inv h term [] s v = v
fail_started-Inv h term (p ∷ ps) s v = elim (Bool-cases (is_begun_in term p)) [
  | inl lost ↦
      rw (lost, fail_started)
        (fail_started-Inv h term ps _ (settle-Inv p.request_id (some (owner_lost_error h p)) s v))
  | inr other ↦ rw (other, fail_started) (fail_started-Inv h term ps s v)
]

dispatch-AreListed :
    (h : Host) (p : PendingWrite) (ps : List PendingWrite) (s : Tracker)
    → IsFresh p.request_id ps
    → AreListed s.writes ps
    → AreListed (dispatch h p s).writes ps
unfolding dispatch
dispatch-AreListed h p ps s f l = elim (Option-cases (dispatch_target h p)) [
  | inl stays ↦ rw (stays, dispatch) l
  | inr (t, goes) ↦ rw (goes, dispatch) (AreListed-insert p.request_id _ s.writes ps f l)
]

dispatch_each-Inv :
    (h : Host) (ps : List PendingWrite) (s : Tracker)
    → Inv s
    → AreListed s.writes ps
    → Inv (dispatch_each h ps s)
unfolding dispatch_each
dispatch_each-Inv h [] s v l = v
dispatch_each-Inv h (p ∷ ps) s v l =
    dispatch_each-Inv h ps (dispatch h p s) (dispatch-Inv h p s v l.0)
      (dispatch-AreListed h p ps s l.1 l.2)

dispatch_waiting-Inv : (h : Host) (s : Tracker) → Inv s → Inv (dispatch_waiting h s)
unfolding dispatch_waiting
dispatch_waiting-Inv h s v =
    dispatch_each-Inv h (values s.writes) s v (AreListed-values s.writes v.keyed)

handle_term_ended-Inv :
    (h : Host) (term : ℕ) (s : Tracker) → Inv s → Inv (handle_term_ended h term s)
unfolding handle_term_ended
handle_term_ended-Inv h term s v =
    dispatch_waiting-Inv h _ (fail_started-Inv h term (values s.writes) s v)

resend-Inv :
    (h : Host) (p : PendingWrite) (s : Tracker)
    → Inv s
    → lookup p.request_id s.writes ≡ some p
    → Inv (resend h p s)
unfolding resend
resend-Inv h p s v e =
    elim (Bool-cases (is_some p.started_term || not (may_resend h p.addressed_term))) [
      | inl stays ↦ rw stays v
      | inr goes ↦ rw goes (
          dispatch-Inv h (record p { is_dispatched = false }) _
            (change-Inv s v p.request_id _ (found-Agrees s v p.request_id p e))
            (rw (lookup-insert p.request_id p.request_id) (rw (==_refl p.request_id))))
    ]

resend-AreListed :
    (h : Host) (p : PendingWrite) (ps : List PendingWrite) (s : Tracker)
    → IsFresh p.request_id ps
    → AreListed s.writes ps
    → AreListed (resend h p s).writes ps
unfolding resend
resend-AreListed h p ps s f l =
    elim (Bool-cases (is_some p.started_term || not (may_resend h p.addressed_term))) [
      | inl stays ↦ rw stays l
      | inr goes ↦ rw goes (
          dispatch-AreListed h (record p { is_dispatched = false }) ps _ f
            (AreListed-insert p.request_id _ s.writes ps f l))
    ]

resend_each-Inv :
    (h : Host) (ps : List PendingWrite) (s : Tracker)
    → Inv s
    → AreListed s.writes ps
    → Inv (resend_each h ps s)
unfolding resend_each
resend_each-Inv h [] s v l = v
resend_each-Inv h (p ∷ ps) s v l =
    resend_each-Inv h ps (resend h p s) (resend-Inv h p s v l.0) (resend-AreListed h p ps s l.1 l.2)

resend_unstarted-Inv : (h : Host) (s : Tracker) → Inv s → Inv (resend_unstarted h s)
unfolding resend_unstarted
resend_unstarted-Inv h s v =
    resend_each-Inv h (values s.writes) s v (AreListed-values s.writes v.keyed)

fail_each-Inv : (e : SerialBrokerError) (rs : List ℕ) (s : Tracker) → Inv s → Inv (fail_each e rs s)
unfolding fail_each
fail_each-Inv e [] s v = v
fail_each-Inv e (r ∷ rs) s v = fail_each-Inv e rs _ (settle-Inv r (some e) s v)

pub fail_all-Inv : (e : SerialBrokerError) (s : Tracker) → Inv s → Inv (fail_all e s)
unfolding fail_all
fail_all-Inv e s v = fail_each-Inv e (keys s.writes) s v

-- Every call keeps the invariant.
pub step-Inv : (h : Host) (c : Call) (s : Tracker) → Inv s → Inv (step h c s)
unfolding step
step-Inv h (adds r payload) s v = add-Inv h r payload s v
step-Inv h (approves r term) s v = approve-Inv r term s v
step-Inv h (results r term error) s v = handle_result-Inv h r term error s v
step-Inv h (ends_term term) s v = handle_term_ended-Inv h term s v
step-Inv h resends s v = resend_unstarted-Inv h s v
step-Inv h dispatches s v = dispatch_waiting-Inv h s v
step-Inv h (settles r error) s v = settle-Inv r error s v
step-Inv h (fails_all e) s v = fail_all-Inv e s v
step-Inv h (runs_deadline r) s v = run_deadline-Inv h r s v

pub run-Inv : (cs : List (Host × Call)) (s : Tracker) → Inv s → Inv (run cs s)
unfolding run
run-Inv [] s v = v
run-Inv ((h, c) ∷ cs) s v = run-Inv cs (step h c s) (step-Inv h c s v)

-- After any sequence of calls, in any order and with any answers of the host, the table of
-- outstanding writes agrees with the history, and at every point of the history: a request is
-- handed on only while its promise is open and no term holds an approval for it that it has not
-- handed back; it is approved only for the term it was last handed to, and for no second term while
-- one holds an approval; its promise settles only while it is open.
pub run-empty-Inv : (cs : List (Host × Call)) → Inv (run cs empty)
run-empty-Inv cs = run-Inv cs empty empty-Inv
