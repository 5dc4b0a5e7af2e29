-- ===== src/Client/Session/Order.antt =====
-- What the history of a session (src/client/configuration-session.ts) says, and the invariant of the state.
use serial_broker.Prelude.{
  ℕ, suc, ◌+◌, ◌≤◌, Bool, true, false, ◌==◌, Option, none, some, List, [], ◌∷◌, is_some, is_value,
  ◌≡◌, refl, arith,
}
use serial_broker.Owner.PortMatcher.{DeviceFilter}
use serial_broker.Client.Session.State.{
  SessionStatus, idle, same_status, SessionEvent, claims, says_goodbye, stops_supervisor,
  starts_supervisor, broadcasts, changes, Session, new_session,
}

abbrev pub one_if : Bool → ℕ
one_if true = 1
one_if false = 0

-- The term that was claimed and whose supervisor was not told to stop.
abbrev pub current : List SessionEvent → Option ℕ
current [] = none
current (claims x ∷ es) = some x
current (stops_supervisor x ∷ es) = none
current (_ ∷ es) = current es

-- How often a term was claimed.
abbrev pub claims_of : ℕ → List SessionEvent → ℕ
claims_of t [] = 0
claims_of t (claims x ∷ es) = one_if (x == t) + claims_of t es
claims_of t (_ ∷ es) = claims_of t es

-- How often a term was said goodbye to.
abbrev pub goodbyes : ℕ → List SessionEvent → ℕ
goodbyes t [] = 0
goodbyes t (says_goodbye x ∷ es) = one_if (x == t) + goodbyes t es
goodbyes t (_ ∷ es) = goodbyes t es

-- The status that the listeners were told of last.
abbrev pub shown : List SessionEvent → SessionStatus
shown [] = idle
shown (changes x y ∷ es) = y
shown (_ ∷ es) = shown es

-- How often the session claimed a term, said a status or started a supervisor.
abbrev pub spoken : List SessionEvent → ℕ
spoken [] = 0
spoken (claims x ∷ es) = suc (spoken es)
spoken (starts_supervisor x y ∷ es) = suc (spoken es)
spoken (broadcasts x y ∷ es) = suc (spoken es)
spoken (_ ∷ es) = spoken es

-- A term is claimed once, and when no other one is current; a supervisor is started, a status said and a
-- supervisor stopped in the current term only; goodbye is said once, to a term that was claimed and is
-- no longer current; and a change of the status starts at the one told last, and changes it.
abbrev pub IsAllowed : SessionEvent → List SessionEvent → Type 0
IsAllowed (claims t) es = (claims_of t es ≡ 0) × (current es ≡ none)
IsAllowed (starts_supervisor t b) es = current es ≡ some t
IsAllowed (broadcasts t x) es = current es ≡ some t
IsAllowed (stops_supervisor t) es = current es ≡ some t
IsAllowed (says_goodbye t) es =
    (goodbyes t es ≡ 0) × (claims_of t es ≡ 1) × (is_value (current es) t ≡ false)
IsAllowed (changes x y) es = (x ≡ shown es) × (same_status x y ≡ false)
IsAllowed _ es = Unit

abbrev pub IsSafe : List SessionEvent → Type 0
IsSafe [] = Unit
IsSafe (e ∷ es) = IsAllowed e es × IsSafe es

abbrev pub count : ℕ → List ℕ → ℕ
count t [] = 0
count t (u ∷ us) = one_if (u == t) + count t us

-- A tab with a term has the port, and has neither been released nor withdrawn.
abbrev pub IsHeld : Option ℕ → Bool → Bool → Bool → Type 0
IsHeld none is_owner is_released is_withdrawn = Unit
IsHeld (some t) is_owner is_released is_withdrawn =
    (is_owner ≡ true) × (is_released ≡ false) × (is_withdrawn ≡ false)

-- The state against what the history says: every claimed term is the current one, or its supervisor is
-- being stopped, or it was said goodbye to.
pub record Core (term supervisor : Option ℕ)
    (is_owner is_released is_withdrawn is_election_stopped : Bool) (stopping : List ℕ)
    (next_term : ℕ) (status : SessionStatus) (now : Option ℕ) (left said : ℕ → ℕ)
    (told : SessionStatus) : Type 0 where
  pub tied : now ≡ term
  pub paired : supervisor ≡ term
  pub held : IsHeld term is_owner is_released is_withdrawn
  pub over : is_withdrawn ≡ true → is_election_stopped ≡ true
  pub counted : (t : ℕ) → count t stopping + left t + one_if (is_value term t) ≡ said t
  pub once : (t : ℕ) → said t ≤ 1
  pub fresh : (t : ℕ) → next_term ≤ t → said t ≡ 0
  pub shows : told ≡ status

abbrev pub CoreOf : Session → Type 0
CoreOf s =
    Core s.term s.supervisor s.is_owner s.is_released (is_some s.withdrawal) s.is_election_stopped
      s.stopping s.next_term s.status (current s.trace) (λ t. goodbyes t s.trace)
      (λ t. claims_of t s.trace) (shown s.trace)

abbrev pub Holds : Session → Type 0
Holds s = CoreOf s × IsSafe s.trace

pub new_session-Holds : (device : DeviceFilter) → Holds (new_session device)
new_session-Holds device = (
  record {
    tied = refl;
    paired = refl;
    held = tt;
    over = λ h. h;
    counted = λ t. omega arith;
    once = λ t. omega arith;
    fresh = λ t h. refl;
    shows = refl;
  },
  tt,
)
