-- ===== src/Client/Session/Writes/Carried.antt =====
-- A write given to the port (`#performWrite` of src/client/configuration-session.ts) against the counts.
use serial_broker.Prelude.{
  ℕ, ◌+◌, Bool, true, false, ◌==◌, Option, some, List, [], ◌∷◌, if◌then◌else◌, ◌≡◌, refl, sym, ◌∙◌,
  ap, subst, arith, All, Text, text_eq, text_eq_iff, inl, inr, by_if, by_option,
}
use serial_broker.Core.Errors.{SerialBrokerError}
use serial_broker.Client.AcceptedWrites.{AcceptedWrites, Admission, has}
use serial_broker.Client.AcceptedWrites.Admits.{IsAdmission, admit-IsAdmission}
use serial_broker.Client.Session.Order.{one_if}
use serial_broker.Client.Session.Keeps.{at_most_once}
use serial_broker.Client.Session.Writes.{
  Request, Job, request_key, find_job, drop_job, takes, repeats, answers, Desk, note,
  report_finished, hand_over, take_up, refusal_of, perform,
}
use serial_broker.Client.Session.Writes.Counts.{
  relogged-Counts, is_for, under_way, Counts, is_for_same,
}

abbrev pub CountsOf : Desk → Type 0
CountsOf s = Counts s.session.term s.session.next_term s.epoch s.accepted.in_progress s.jobs s.log

-- An answer to a write that was just taken, and a repeat.
answered_at_once :
    (q : Request) (error : Option SerialBrokerError) (s : Desk)
    → CountsOf s
    → CountsOf (report_finished q error (note (takes q) s))
answered_at_once q error s v =
    let counts : CountsOf (note (answers q error) (note (takes q) s)) =
      relogged-Counts _ _ _ _ _ _ _ v (λ t k. omega (arith, v.balance t k)) in
    by_if CountsOf q.is_local _ _ (λ own. counts) (λ other. counts)

repeated_at_once :
    (q : Request) (s : Desk) → CountsOf s → CountsOf (note (repeats q) (note (takes q) s))
repeated_at_once q s v = relogged-Counts _ _ _ _ _ _ _ v (λ t k. omega (arith, v.balance t k))

not_both : (b : Bool) → (b ≡ true → ⊥) → one_if b ≡ 0
not_both true h = absurd (h refl)
not_both false h = refl

missing : (b x : Bool) → (if b then true else x) ≡ false → (b ≡ false) × (x ≡ false)
missing true x h = cc (h)
missing false x h = (refl, h)

not_for :
    (t : ℕ) (k : Text) (q : Request) → text_eq (request_key q) k ≡ false → one_if (is_for t k q) ≡ 0
not_for t k q other =
    not_both _ (λ h.
      let same = (text_eq_iff (request_key q) k).1 (is_for_same t k q h).1 in cc (same, other))

-- A write that is begun.
begun_job :
    (q : Request) (a : AcceptedWrites) (s : Desk)
    → CountsOf s
    → s.session.term ≡ some q.term
    → has (request_key q) s.accepted.in_progress ≡ false
    → ((j : Text)
        → has j a.in_progress
          ≡ (if text_eq (request_key q) j then true else has j s.accepted.in_progress))
    → CountsOf (hand_over q (note (takes q) (record s { accepted = a })))
begun_job q a s v here absent added = record {
  once = λ t k.
      at_most_once (is_for t k q) _
        (λ h.
          let same = is_for_same t k q h in
          v.known t k (here ∙ ap some same.0)
            (subst (λ x. has x s.accepted.in_progress ≡ false) same.1 absent))
        (v.once t k);
  old = λ t k above.
      let other : one_if (is_for t k q) ≡ 0 =
        not_both (is_for t k q)
          (λ h. omega (arith, (is_for_same t k q h).0, v.below q.term here, above)) in
      omega (arith, other, v.old t k above);
  known = λ t k now gone.
      let neither_one = missing (text_eq (request_key q) k) _ (sym (added k) ∙ gone) in
      omega (arith, not_for t k q neither_one.0, v.known t k now neither_one.1);
  below = v.below;
  every = ((omega arith, λ e. here), v.every);
  balance = λ t k. omega (arith, v.balance t k);
}

taken_up :
    (q : Request) (a : AcceptedWrites) (d : Admission) (s : Desk)
    → CountsOf s
    → s.session.term ≡ some q.term
    → IsAdmission (request_key q) s.accepted (a, d)
    → CountsOf (take_up d q (note (takes q) (record s { accepted = a })))
taken_up q a d s v here (inl (new_one, absent, added)) =
    subst (λ x. CountsOf (take_up x q (note (takes q) (record s { accepted = a })))) (sym new_one)
      (begun_job q a s v here absent added)
taken_up q a d s v here (inr (inl (same, again))) =
    subst (λ x. CountsOf (take_up x q (note (takes q) (record s { accepted = a })))) (sym again)
      (subst (λ x. CountsOf (note (repeats q) (note (takes q) (record s { accepted = x }))))
        (sym same) (repeated_at_once q s v))
taken_up q a d s v here (inr (inr (same, (e, ended)))) =
    subst (λ x. CountsOf (take_up x q (note (takes q) (record s { accepted = a })))) (sym ended)
      (subst (λ x. CountsOf (report_finished q e (note (takes q) (record s { accepted = x }))))
        (sym same) (answered_at_once q e s v))

pub perform-CountsOf :
    (q : Request) (refusal : Option SerialBrokerError) (s : Desk)
    → CountsOf s
    → s.session.term ≡ some q.term
    → CountsOf (perform q refusal s)
perform-CountsOf q refusal s v here =
    by_option CountsOf (refusal_of q refusal s) _ _
      (λ admits. taken_up q _ _ s v here (admit-IsAdmission q.origin q.request_id s.accepted))
      (λ error refused. answered_at_once q (some error) s v)

-- A job that ends.
dropped :
    (b : Bool) (j : Job) (t : ℕ) (k : Text) (id : ℕ) (js rest : List Job) (i : Job)
    → (if b then some j else find_job id js) ≡ some i
    → (find_job id js ≡ some i
        → under_way t k rest + one_if (is_for t k i.request) ≡ under_way t k js)
    → under_way t k (if b then js else j ∷ rest) + one_if (is_for t k i.request)
      ≡ one_if (is_for t k j.request) + under_way t k js
dropped true j t k id js rest i e h =
    let same : j ≡ i = cc (e) in omega (arith, ap (λ x. one_if (is_for t k x.request)) same)
dropped false j t k id js rest i e h = omega (arith, h e)

pub under_way-drop_job :
    (t : ℕ) (k : Text) (id : ℕ) (js : List Job) (i : Job)
    → find_job id js ≡ some i
    → under_way t k (drop_job id js) + one_if (is_for t k i.request) ≡ under_way t k js
under_way-drop_job t k id [] i e = cc (e)
under_way-drop_job t k id (j ∷ js) i e =
    dropped (j.id == id) j t k id js (drop_job id js) i e (under_way-drop_job t k id js i)

All-if :
    (b : Bool) (P : Job → Type 0) (j : Job) (js rest : List Job)
    → P j
    → All P js
    → All P rest
    → All P (if b then js else j ∷ rest)
All-if true P j js rest p h r = h
All-if false P j js rest p h r = (p, r)

pub All-drop_job : (P : Job → Type 0) (id : ℕ) (js : List Job) → All P js → All P (drop_job id js)
All-drop_job P id [] h = tt
All-drop_job P id (j ∷ js) h = All-if (j.id == id) P j js _ h.0 h.1 (All-drop_job P id js h.1)

found_here :
    (b : Bool) (P : Job → Type 0) (j i : Job) (o : Option Job)
    → (if b then some j else o) ≡ some i
    → P j
    → (o ≡ some i → P i)
    → P i
found_here true P j i o e p h = let same : j ≡ i = cc (e) in subst P same p
found_here false P j i o e p h = h e

pub All-find_job :
    (P : Job → Type 0) (id : ℕ) (js : List Job) (i : Job) → All P js → find_job id js ≡ some i → P i
All-find_job P id [] i h e = cc (e)
All-find_job P id (j ∷ js) i h e =
    found_here (j.id == id) P j i (find_job id js) e h.0 (All-find_job P id js i h.1)
