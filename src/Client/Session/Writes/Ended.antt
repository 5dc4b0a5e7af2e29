-- ===== src/Client/Session/Writes/Ended.antt =====
-- The end of a write at the port (`#performWrite` of src/client/configuration-session.ts) and the counts.
use serial_broker.Prelude.{
  ℕ, Bool, true, false, ◌==◌, Option, none, some, if◌then◌else◌, ◌≡◌, refl, sym, ◌∙◌, ap, subst,
  arith, Text, text_eq, ◌⊎◌, inl, inr, by_if, by_option, Bool-cases,
}
use serial_broker.Core.Errors.{SerialBrokerError}
use serial_broker.Client.AcceptedWrites.{AcceptedWrites, has, finish}
use serial_broker.Client.AcceptedWrites.Admits.{has-finish}
use serial_broker.Client.Session.Order.{one_if}
use serial_broker.Client.Session.Writes.{
  Request, Job, request_key, find_job, drop_job, answers, Desk, note, announce, settle_job,
}
use serial_broker.Client.Session.Writes.Counts.{relogged-Counts, is_for, under_way, IsOf}
use serial_broker.Client.Session.Writes.Carried.{
  CountsOf, under_way-drop_job, All-drop_job, All-find_job,
}

-- The record of accepted writes after the end of a job.
abbrev after_end : Job → Option SerialBrokerError → Desk → AcceptedWrites
after_end j error s =
    if j.epoch == s.epoch
    then finish j.request.origin j.request.request_id error s.accepted
    else s.accepted

gone_or_other : (b x : Bool) → (if b then false else x) ≡ false → (b ≡ true) ⊎ (x ≡ false)
gone_or_other true x h = inl refl
gone_or_other false x h = inr h

is_for_self :
    (t : ℕ) (k : Text) (q : Request)
    → q.term ≡ t
    → text_eq (request_key q) k ≡ true
    → is_for t k q ≡ true
is_for_self t k q e h = let same : q.term == t ≡ true = ground (arith, e) in rw (same, h) refl

known_after :
    (j : Job) (error : Option SerialBrokerError) (s : Desk) (id t : ℕ) (k : Text)
    → CountsOf s
    → find_job id s.jobs ≡ some j
    → s.session.term ≡ some t
    → (j.epoch == s.epoch ≡ true)
        × ((text_eq (request_key j.request) k ≡ true) ⊎ (has k s.accepted.in_progress ≡ false))
      ⊎ (has k s.accepted.in_progress ≡ false)
    → under_way t k (drop_job id s.jobs) ≡ 0
known_after j error s id t k v found now (inr absent) =
    omega (arith, under_way-drop_job t k id s.jobs j found, v.known t k now absent)
known_after j error s id t k v found now (inl (present, inr absent)) =
    omega (arith, under_way-drop_job t k id s.jobs j found, v.known t k now absent)
known_after j error s id t k v found now (inl (present, inl same)) =
    let ours : IsOf s.session.term s.epoch j = All-find_job _ id s.jobs j v.every found in
    let epoch_now : j.epoch ≡ s.epoch = ground (arith, present) in
    let term_now : some t ≡ some j.request.term = sym now ∙ ours.1 epoch_now in
    let term_same : j.request.term ≡ t = cc (term_now) in
    let here : one_if (is_for t k j.request) ≡ 1 =
      ap one_if (is_for_self t k j.request term_same same) in
    omega (arith, under_way-drop_job t k id s.jobs j found, v.once t k, here)

absent_after :
    (j : Job) (error : Option SerialBrokerError) (s : Desk) (k : Text)
    → has k (after_end j error s).in_progress ≡ false
    → (j.epoch == s.epoch ≡ true)
        × ((text_eq (request_key j.request) k ≡ true) ⊎ (has k s.accepted.in_progress ≡ false))
      ⊎ (has k s.accepted.in_progress ≡ false)
absent_after j error s k h = elim (Bool-cases (j.epoch == s.epoch)) [
  | inr old ↦ inr (
      subst
        (λ b.
          has k
            (if b
              then finish j.request.origin j.request.request_id error s.accepted
              else s.accepted).in_progress
          ≡ false)
        old h)
  | inl present ↦
      let gone : has k (finish j.request.origin j.request.request_id error s.accepted).in_progress
          ≡ false =
        subst
          (λ b.
            has k
              (if b
                then finish j.request.origin j.request.request_id error s.accepted
                else s.accepted).in_progress
            ≡ false)
          present h in
      inl (
        present,
        gone_or_other _ _
            (sym (has-finish j.request.origin j.request.request_id k error s.accepted) ∙ gone),
      )
]

ended_job :
    (id : ℕ) (j : Job) (error : Option SerialBrokerError) (s : Desk)
    → CountsOf s
    → find_job id s.jobs ≡ some j
    → CountsOf (
        note
          (answers j.request error)
          (record s { jobs = drop_job id s.jobs; accepted = after_end j error s }))
ended_job id j error s v found = record {
  once = λ t k. omega (arith, under_way-drop_job t k id s.jobs j found, v.once t k);
  old = λ t k above. omega (arith, under_way-drop_job t k id s.jobs j found, v.old t k above);
  known = λ t k now gone. known_after j error s id t k v found now (absent_after j error s k gone);
  below = v.below;
  every = All-drop_job _ id s.jobs v.every;
  balance = λ t k. omega (arith, under_way-drop_job t k id s.jobs j found, v.balance t k);
}

announce-CountsOf :
    (q : Request) (error : Option SerialBrokerError) (s : Desk)
    → CountsOf s
    → CountsOf (announce q error s)
announce-CountsOf q none s v = relogged-Counts _ _ _ _ _ _ _ v v.balance
announce-CountsOf q (some e) s v = v

pub settle_job-CountsOf :
    (id : ℕ) (error : Option SerialBrokerError) (s : Desk)
    → CountsOf s
    → CountsOf (settle_job id error s)
settle_job-CountsOf id error s v =
    by_option CountsOf (find_job id s.jobs) _ _ (λ unknown. v)
      (λ j found.
        let ended = ended_job id j error s v found in
        announce-CountsOf j.request error _
          (by_if CountsOf j.request.is_local _ _ (λ own. ended) (λ other. ended)))
