-- ===== src/Client/Session/Writes/Questions.antt =====
-- `#awaitedApprovals` of src/client/configuration-session.ts: the questions and the jobs that asked.
use serial_broker.Prelude.{
  ℕ, ◌≤◌, Bool, true, false, ◌==◌, none, some, List, [], ◌∷◌, if◌then◌else◌, ◌≡◌, refl, ap, arith,
  Text, text_eq, text_eq_iff,
}
use serial_broker.Client.AcceptedWrites.{get}
use serial_broker.Client.Session.Writes.{Job, Question, request_key, erase, find_job, drop_job}

-- The writes of other tabs that a question is about.
abbrev pub Asks : List Job → Text → Question → Type 0
Asks js key q =
    (j : Job) × (find_job q.job js ≡ some j)
    × (j.request.term ≡ q.term)
    × (request_key j.request ≡ key)
    × (j.request.is_local ≡ false)

pub record Asked (jobs : List Job) (next_job : ℕ) (awaited : List (Text × Question)) : Type 0 where
  pub unused : (id : ℕ) → next_job ≤ id → find_job id jobs ≡ none
  pub asked : (key : Text) (q : Question) → get key awaited ≡ some q → Asks jobs key q

module _ {ℓ} {V : Type ℓ} where
  pub get-erase :
      (k j : Text) (es : List (Text × V))
      → get j (erase k es) ≡ (if text_eq k j then none else get j es)
  unfolding get
  get-erase k j [] = ground arith
  get-erase k j (e ∷ es) =
      ground (arith, get-erase k j es, text_eq_iff e.0 k, text_eq_iff e.0 j, text_eq_iff k j)

other_dropped :
    (a : Bool) (j : Job) (js rest : List Job) (id i : ℕ)
    → a ≡ (j.id == id)
    → (id ≡ i → ⊥)
    → find_job i rest ≡ find_job i js
    → find_job i (if a then js else j ∷ rest) ≡ find_job i (j ∷ js)
other_dropped true j js rest id i e other same =
    let absent : j.id == i ≡ false = ground (arith, e, other) in rw absent refl
other_dropped false j js rest id i e other same = ap (λ o. if j.id == i then some j else o) same

pub find_job-drop_job :
    (id i : ℕ) (js : List Job) → (id ≡ i → ⊥) → find_job i (drop_job id js) ≡ find_job i js
find_job-drop_job id i [] other = refl
find_job-drop_job id i (j ∷ js) other =
    other_dropped (j.id == id) j js (drop_job id js) id i refl other
      (find_job-drop_job id i js other)
