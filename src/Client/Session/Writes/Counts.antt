-- ===== src/Client/Session/Writes/Counts.antt =====
-- How many writes of src/client/configuration-session.ts are under way, taken and answered.
use serial_broker.Prelude.{
  ℕ, suc, ◌+◌, ◌≤◌, Bool, true, false, ◌&&◌, ◌==◌, Option, none, some, List, [], ◌∷◌, if◌then◌else◌,
  ◌≡◌, refl, sym, subst, arith, All, Text, text_eq, text_eq_iff, inl, inr,
}
use serial_broker.Client.AcceptedWrites.{has}
use serial_broker.Client.Session.State.{Session}
use serial_broker.Client.Session.Order.{one_if}
use serial_broker.Client.Session.Terms.{IsNext}
use serial_broker.Client.Session.Writes.{
  Request, Job, request_key, WriteEvent, takes, repeats, answers,
}

abbrev pub is_for : ℕ → Text → Request → Bool
is_for t k q = q.term == t && text_eq (request_key q) k

-- The writes with one key that are under way in one term.
abbrev pub under_way : ℕ → Text → List Job → ℕ
under_way t k [] = 0
under_way t k (j ∷ js) = one_if (is_for t k j.request) + under_way t k js

-- How often such a write was given to the tab, ignored as a repeat, and answered.
abbrev pub taken : ℕ → Text → List WriteEvent → ℕ
taken t k [] = 0
taken t k (takes q ∷ es) = one_if (is_for t k q) + taken t k es
taken t k (_ ∷ es) = taken t k es

abbrev pub repeated : ℕ → Text → List WriteEvent → ℕ
repeated t k [] = 0
repeated t k (repeats q ∷ es) = one_if (is_for t k q) + repeated t k es
repeated t k (_ ∷ es) = repeated t k es

abbrev pub answered : ℕ → Text → List WriteEvent → ℕ
answered t k [] = 0
answered t k (answers q error ∷ es) = one_if (is_for t k q) + answered t k es
answered t k (_ ∷ es) = answered t k es

-- A job of the present record of accepted writes is of the present term.
abbrev pub IsOf : Option ℕ → ℕ → Job → Type 0
IsOf term epoch j = (j.epoch ≤ epoch) × (j.epoch ≡ epoch → term ≡ some j.request.term)

pub record Counts (term : Option ℕ) (next_term epoch : ℕ) (accepted : List Text) (jobs : List Job)
    (log : List WriteEvent) : Type 0 where
  pub once : (t : ℕ) (k : Text) → under_way t k jobs ≤ 1
  pub old : (t : ℕ) (k : Text) → next_term ≤ t → under_way t k jobs ≡ 0
  pub known : (t : ℕ) (k : Text) → term ≡ some t → has k accepted ≡ false → under_way t k jobs ≡ 0
  pub below : (t : ℕ) → term ≡ some t → suc t ≤ next_term
  pub every : All (IsOf term epoch) jobs
  pub balance :
      (t : ℕ) (k : Text) → taken t k log ≡ answered t k log + repeated t k log + under_way t k jobs

-- The log may grow where the balance stays.
pub relogged-Counts :
    (term : Option ℕ) (n epoch : ℕ) (a : List Text) (js : List Job) (es fs : List WriteEvent)
    → Counts term n epoch a js es
    → ((t : ℕ) (k : Text) → taken t k fs ≡ answered t k fs + repeated t k fs + under_way t k js)
    → Counts term n epoch a js fs
relogged-Counts term n epoch a js es fs v balance = record {
  once = v.once;
  old = v.old;
  known = v.known;
  below = v.below;
  every = v.every;
  balance = balance;
}

and_both : (a b : Bool) → a && b ≡ true → (a ≡ true) × (b ≡ true)
and_both true b h = (refl, h)
and_both false b h = cc (h)

pub is_for_same :
    (t : ℕ) (k : Text) (q : Request) → is_for t k q ≡ true → (q.term ≡ t) × (request_key q ≡ k)
is_for_same t k q h =
    let both = and_both (q.term == t) (text_eq (request_key q) k) h in
    let same : q.term ≡ t = ground (arith, both.0) in
    (same, (text_eq_iff (request_key q) k).0 both.1)

-- Terms.
none-IsOf :
    (epoch : ℕ) (term : Option ℕ) (js : List Job)
    → All (IsOf term epoch) js
    → All (IsOf none (suc epoch)) js
none-IsOf epoch term [] h = tt
none-IsOf epoch term (j ∷ js) h =
    ((omega (arith, h.0.0), λ e. absurd (omega (arith, h.0.0, e))), none-IsOf epoch term js h.1)

still-IsOf :
    (epoch : ℕ) (term : Option ℕ) (js : List Job)
    → All (IsOf none epoch) js
    → All (IsOf term epoch) js
still-IsOf epoch term [] h = tt
still-IsOf epoch term (j ∷ js) h = ((h.0.0, λ e. cc (h.0.1 e)), still-IsOf epoch term js h.1)

kept-Counts :
    (o s : Session) (e : ℕ) (a : List Text) (js : List Job) (es : List WriteEvent)
    → Counts o.term o.next_term e a js es
    → s.term ≡ o.term
    → s.next_term ≡ o.next_term
    → Counts s.term s.next_term e a js es
kept-Counts o s e a js es v same next =
    subst (λ x. Counts x s.next_term e a js es) (sym same)
      (subst (λ x. Counts o.term x e a js es) (sym next) v)

begun-Counts :
    (o : Session) (e : ℕ) (a : List Text) (js : List Job) (es : List WriteEvent)
    → Counts o.term o.next_term e a js es
    → o.term ≡ none
    → Counts (some o.next_term) (suc o.next_term) e a js es
begun-Counts o e a js es v quiet = record {
  once = v.once;
  old = λ t k h. v.old t k (omega (arith, h));
  known = λ t k h absent. let same : o.next_term ≡ t = cc (h) in v.old t k (omega (arith, same));
  below = λ t h. let same : o.next_term ≡ t = cc (h) in omega (arith, same);
  every = still-IsOf e _ js (subst (λ x. All (IsOf x e) js) quiet v.every);
  balance = v.balance;
}

stopped-Counts :
    (o : Session) (e : ℕ) (a b : List Text) (js : List Job) (es : List WriteEvent)
    → Counts o.term o.next_term e a js es
    → Counts none o.next_term (suc e) b js es
stopped-Counts o e a b js es v = record {
  once = v.once;
  old = v.old;
  known = λ t k h absent. cc (h);
  below = λ t h. cc (h);
  every = none-IsOf e o.term js v.every;
  balance = v.balance;
}

pub IsNext-Counts :
    (b : Bool) (o s : Session) (e : ℕ) (a fresh_list : List Text) (js : List Job)
    (es : List WriteEvent)
    → Counts o.term o.next_term e a js es
    → IsNext b o s
    → Counts s.term s.next_term (if b then suc e else e) (if b then fresh_list else a) js es
IsNext-Counts true o s e a c js es v h =
    subst (λ x. Counts x s.next_term (suc e) c js es) (sym h.0)
      (subst (λ x. Counts none x (suc e) c js es) (sym h.1) (stopped-Counts o e a c js es v))
IsNext-Counts false o s e a c js es v (inl h) = kept-Counts o s e a js es v h.0 h.1
IsNext-Counts false o s e a c js es v (inr h) =
    subst (λ x. Counts x s.next_term e a js es) (sym h.1)
      (subst (λ x. Counts (some o.next_term) x e a js es) (sym h.2)
        (begun-Counts o e a js es v h.0))
