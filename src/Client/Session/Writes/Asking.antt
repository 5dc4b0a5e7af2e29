-- ===== src/Client/Session/Writes/Asking.antt =====
-- The operations on writes of src/client/configuration-session.ts against the questions asked.
use serial_broker.Prelude.{
  ℕ, suc, ◌≤◌, Bool, true, false, ◌==◌, Option, none, some, List, ◌∷◌, if◌then◌else◌, ◌≡◌, refl,
  sym, ◌∙◌, ap, subst, arith, Text, text_eq, text_eq_iff, by_if, by_option, inl, inr, ◌⊎◌,
}
use serial_broker.Core.Errors.{SerialBrokerError}
use serial_broker.Client.AcceptedWrites.{Admission, fresh, in_progress, finished, get, put}
use serial_broker.Client.AcceptedWrites.Memory.{get-put}
use serial_broker.Client.Session.Writes.{
  Request, Job, Question, Desk, note, takes, request_key, erase, find_job, drop_job,
  report_finished, take_up, refusal_of, perform, may_begin, announce, settle_job,
}
use serial_broker.Client.Session.Writes.Questions.{Asks, Asked, get-erase, find_job-drop_job}

abbrev pub AskedOf : Desk → Type 0
AskedOf s = Asked s.jobs s.next_job s.awaited

found_unless :
    (b : Bool) (V : Type 0) (o : Option V) (v : V)
    → (if b then none else o) ≡ some v
    → (b ≡ false) × (o ≡ some v)
found_unless true V o v e = cc (e)
found_unless false V o v e = (refl, e)

pub erased-Asked :
    (k : Text) (js : List Job) (n : ℕ) (es : List (Text × Question))
    → Asked js n es
    → Asked js n (erase k es)
erased-Asked k js n es v = record {
  unused = v.unused;
  asked = λ key q e.
      v.asked key q (found_unless (text_eq k key) Question _ q (sym (get-erase k key es) ∙ e)).1;
}

report_finished-AskedOf :
    (q : Request) (error : Option SerialBrokerError) (s : Desk)
    → AskedOf s
    → AskedOf (report_finished q error s)
report_finished-AskedOf q error s v =
    by_if AskedOf q.is_local _ _ (λ own. v)
      (λ other. erased-Asked (request_key q) s.jobs s.next_job s.awaited v)

-- A job that is found has been given a number.
is_used :
    (js : List Job) (n : ℕ) (es : List (Text × Question)) (i : ℕ) (j : Job)
    → Asked js n es
    → find_job i js ≡ some j
    → n ≤ i
    → ⊥
is_used js n es i j v e above = let none_yet = v.unused i above in cc (e, none_yet)

next_found :
    (j : Job) (i : ℕ) (js : List Job) → (j.id ≡ i → ⊥) → find_job i (j ∷ js) ≡ find_job i js
next_found j i js other = let absent : j.id == i ≡ false = ground (arith, other) in rw absent refl

handed-Asked :
    (js : List Job) (n epoch : ℕ) (es : List (Text × Question)) (q : Request)
    → Asked js n es
    → Asked (record { id = n; epoch = epoch; request = q } ∷ js) (suc n) es
handed-Asked js n epoch es q v = record {
  unused = λ i above.
      next_found _ i js (λ same. omega (arith, same, above)) ∙ v.unused i (omega (arith, above));
  asked = λ key p e.
      let (j, found, term, named, remote) = v.asked key p e in
      (
        j,
        next_found _ p.job js (λ same. is_used js n es p.job j v found (omega (arith, same)))
            ∙ found,
        term,
        named,
        remote,
      );
}

take_up-AskedOf : (d : Admission) (q : Request) (s : Desk) → AskedOf s → AskedOf (take_up d q s)
take_up-AskedOf in_progress q s v = v
take_up-AskedOf (finished e) q s v = report_finished-AskedOf q e s v
take_up-AskedOf fresh q s v = handed-Asked s.jobs s.next_job s.epoch s.awaited q v

pub perform-AskedOf :
    (q : Request) (refusal : Option SerialBrokerError) (s : Desk)
    → AskedOf s
    → AskedOf (perform q refusal s)
perform-AskedOf q refusal s v =
    by_option AskedOf (refusal_of q refusal s) _ _ (λ admits. take_up-AskedOf _ q _ v)
      (λ error refused. report_finished-AskedOf q (some error) (note (takes q) s) v)

put_cases :
    (b : Bool) (p q : Question) (o : Option Question)
    → (if b then some p else o) ≡ some q
    → (b ≡ true) × (p ≡ q) ⊎ (o ≡ some q)
put_cases true p q o e = inl (refl, cc (e))
put_cases false p q o e = inr e

put-Asked :
    (j : Job) (id : ℕ) (js : List Job) (n : ℕ) (es : List (Text × Question))
    → find_job id js ≡ some j
    → j.request.is_local ≡ false
    → Asked js n es
    → Asked js n (put (request_key j.request) (record { term = j.request.term; job = id }) es)
put-Asked j id js n es found remote v = record {
  unused = v.unused;
  asked = λ key q e.
      elim (put_cases (text_eq (request_key j.request) key) _ q _
        (sym (get-put (request_key j.request) key _ es) ∙ e)) [
          | inr before ↦ v.asked key q before
          | inl (same, new) ↦
              subst (Asks js key) new (j, found, refl, (text_eq_iff _ key).0 same, remote)
        ];
}

pub may_begin-AskedOf : (id : ℕ) (s : Desk) → AskedOf s → AskedOf (may_begin id s)
may_begin-AskedOf id s v =
    by_option AskedOf (find_job id s.jobs) _ _ (λ unknown. v)
      (λ j found.
        by_if AskedOf j.request.is_local _ _ (λ own. v)
          (λ remote. put-Asked j id s.jobs s.next_job s.awaited found remote v))

-- A job that has ended is not asked about.
ended-Asked :
    (id : ℕ) (j : Job) (js : List Job) (n : ℕ) (es : List (Text × Question))
    → find_job id js ≡ some j
    → ((key : Text) (q : Question) → get key es ≡ some q → id ≡ q.job → ⊥)
    → Asked js n es
    → Asked (drop_job id js) n es
ended-Asked id j js n es found quiet v = record {
  unused = λ i above.
      find_job-drop_job id i js (λ same. is_used js n es id j v found (omega (arith, same, above)))
      ∙ v.unused i above;
  asked = λ key q e.
      let (i, here, term, named, remote) = v.asked key q e in
      (i, find_job-drop_job id q.job js (quiet key q e) ∙ here, term, named, remote);
}

same_job :
    (id : ℕ) (q : Question) (js : List Job) (i j : Job)
    → find_job q.job js ≡ some i
    → find_job id js ≡ some j
    → id ≡ q.job
    → i ≡ j
same_job id q js i j e f same =
    let there : find_job q.job js ≡ some j = subst (λ x. find_job x js ≡ some j) same f in
    cc (e, there)

local_is_quiet :
    (id : ℕ) (j : Job) (s : Desk)
    → AskedOf s
    → find_job id s.jobs ≡ some j
    → j.request.is_local ≡ true
    → (key : Text) (q : Question) → get key s.awaited ≡ some q
    → id ≡ q.job
    → ⊥
local_is_quiet id j s v found own key q e same =
    let (i, here, term, named, remote) = v.asked key q e in
    let one : i ≡ j = same_job id q s.jobs i j here found same in
    let local_too : i.request.is_local ≡ true = ap (λ x. x.request.is_local) one ∙ own in
    cc (local_too, remote)

erased_is_quiet :
    (id : ℕ) (j : Job) (s : Desk)
    → AskedOf s
    → find_job id s.jobs ≡ some j
    → (key : Text) (q : Question) → get key (erase (request_key j.request) s.awaited) ≡ some q
    → id ≡ q.job
    → ⊥
erased_is_quiet id j s v found key q e same =
    let there =
      found_unless (text_eq (request_key j.request) key) Question _ q
        (sym (get-erase (request_key j.request) key s.awaited) ∙ e) in
    let (i, here, term, named, remote) = v.asked key q there.1 in
    let one : i ≡ j = same_job id q s.jobs i j here found same in
    let named_so : request_key j.request ≡ key =
      ap (λ x. request_key x.request) (sym one) ∙ named in
    let equal : text_eq (request_key j.request) key ≡ true = (text_eq_iff _ key).1 named_so in
    cc (equal, there.0)

announce-AskedOf :
    (q : Request) (error : Option SerialBrokerError) (s : Desk)
    → AskedOf s
    → AskedOf (announce q error s)
announce-AskedOf q none s v = v
announce-AskedOf q (some e) s v = v

pub settle_job-AskedOf :
    (id : ℕ) (error : Option SerialBrokerError) (s : Desk)
    → AskedOf s
    → AskedOf (settle_job id error s)
settle_job-AskedOf id error s v =
    by_option AskedOf (find_job id s.jobs) _ _ (λ unknown. v)
      (λ j found. announce-AskedOf j.request error _ (
        by_if AskedOf j.request.is_local _ _
          (λ own.
            ended-Asked id j s.jobs s.next_job s.awaited found (local_is_quiet id j s v found own)
              v)
          (λ other.
            ended-Asked id j s.jobs s.next_job _ found (erased_is_quiet id j s v found)
              (erased-Asked (request_key j.request) s.jobs s.next_job s.awaited v))))
