-- ===== src/Owner/PortSupervisor/Invariant.antt =====
-- The invariant of the supervisor: every state has what can move it on, and just that.
use serial_broker.Prelude.{
  ℕ, ◌<◌, Bool, true, false, Option, none, some, List, [], ◌∷◌, ◌++◌, ◌≡◌, ◌⊎◌, refl, sym, ◌∙◌, ap,
  subst, arith, lookup, by_if, Table,
}
use serial_broker.Owner.PortSupervisor.{set_status}
use serial_broker.Owner.PortSupervisor.State.{
  Status, is_idle, is_awaiting_permission, is_connecting, is_open, is_reconnecting, has_failed,
  status_eq, ConnectionState, idle, awaiting_permission, listing, failed, stopped, opening,
  connected, reconnecting, is_stopped, Continuation, awaits_teardown, awaits_listing, awaits_open,
  awaits_read, has_found, has_opened, StopPhase, not_stopping, draining, closing_down, answering,
  has_stopped, SupervisorEvent, status_changed, reported, lists_ports, opens_port, pushes, flushes,
  close_began, close_ended, Fields, Supervisor, new, has_id, drop_id,
}

-- The closes that have begun and not ended.
abbrev pub pending : List SupervisorEvent → List ℕ
pending [] = []
pending (close_began k ∷ es) = pending es ++ k ∷ []
pending (close_ended k ∷ es) = drop_id k (pending es)
pending (status_changed x ∷ es) = pending es
pending (reported x y ∷ es) = pending es
pending (lists_ports x ∷ es) = pending es
pending (opens_port x y ∷ es) = pending es
pending (pushes x y ∷ es) = pending es
pending (flushes x ∷ es) = pending es

-- The status that the owner was told last.
abbrev pub status_told : List SupervisorEvent → Status
status_told [] = is_idle
status_told (status_changed x ∷ es) = x
status_told (_ ∷ es) = status_told es

-- A port is opened only when every close that has begun has ended.
abbrev pub IsAllowed : SupervisorEvent → List SupervisorEvent → Type 0
IsAllowed (opens_port g p) es = pending es ≡ []
IsAllowed _ es = Unit

abbrev pub IsSafe : List SupervisorEvent → Type 0
IsSafe [] = Unit
IsSafe (e ∷ es) = IsAllowed e es × IsSafe es

-- Every close under way is among those awaited.
abbrev pub IsAmong : List ℕ → List ℕ → Type 0
IsAmong ks ids = (k : ℕ) → has_id k ks ≡ true → has_id k ids ≡ true

-- An attempt that looks for the port awaits the closes under way, or the list with none under way.
abbrev pub IsLooking : Option Continuation → List ℕ → Type 0
IsLooking c closing =
    ((a : ℕ) × (ids : List ℕ) × (c ≡ some (awaits_teardown a ids)) × IsAmong closing ids)
    ⊎ ((a : ℕ) × (c ≡ some (awaits_listing a)) × (closing ≡ []))

-- What the state says of the continuation of the current attempt, of the timers and of the status.
abbrev pub View : ConnectionState → Option Continuation → List ℕ → Status → List ℕ → ℕ → Type 0
View idle c timers status closing g = (c ≡ none) × (timers ≡ []) × (status ≡ is_idle)
View awaiting_permission c timers status closing g =
    (c ≡ none) × (timers ≡ []) × (status ≡ is_awaiting_permission)
View listing c timers status closing g =
    IsLooking c closing × (timers ≡ []) × (status ≡ is_connecting)
View (opening p) c timers status closing g =
    ((a : ℕ) × (c ≡ some (awaits_open a p)))
    × (timers ≡ [])
    × (status ≡ is_connecting)
    × (closing ≡ [])
View (connected p h) c timers status closing g =
    (c ≡ some (awaits_read p)) × (timers ≡ []) × (status ≡ is_open) × (closing ≡ []) × (h ≡ g)
View (reconnecting t) c timers status closing g =
    (c ≡ none) × (timers ≡ t ∷ []) × (status ≡ is_reconnecting)
View failed c timers status closing g = (c ≡ none) × (timers ≡ []) × (status ≡ has_failed)
View stopped c timers status closing g = (c ≡ none) × (timers ≡ [])

-- What the phase of `stop()` says.
abbrev pub StopView : StopPhase → Bool → List ℕ → Status → Type 0
StopView not_stopping is_over closing status = is_over ≡ false
StopView (draining g) is_over closing status = is_over ≡ true
StopView (closing_down ids) is_over closing status = (is_over ≡ true) × IsAmong closing ids
StopView answering is_over closing status = (is_over ≡ true) × (closing ≡ [])
StopView has_stopped is_over closing status = (is_over ≡ true) × (closing ≡ []) × (status ≡ is_idle)

-- `#connect` goes on at once when `#findPort` or `#open` has returned: neither return is awaited
-- between two steps.
abbrev pub IsResting : Option Continuation → Type 0
IsResting (some (has_found a p)) = ⊥
IsResting (some (has_opened a p)) = ⊥
IsResting _ = Unit

-- What is awaited, up to the generation.
pub record IsFresh (g : ℕ) (m : Table Continuation) : Type 0 where
  pub above : (k : ℕ) → g < k → lookup k m ≡ none
  pub resting : (k : ℕ) → IsResting (lookup k m)

-- What holds in every state.
pub record Base (f : Fields) : Type 0 where
  pub fresh : IsFresh f.generation f.continuations
  pub tied : f.closing ≡ pending f.trace
  pub safe : IsSafe f.trace
  pub told : status_told f.trace ≡ f.status

pub record Inv (st : ConnectionState) (f : Fields) : Type 0 where
  pub base : Base f
  pub view : View st (lookup f.generation f.continuations) f.timers f.status f.closing f.generation
  pub stop_view : StopView f.stopping (is_stopped st) f.closing f.status

abbrev pub Holds : Supervisor → Type 0
Holds s = Inv s.state s.fields

pub new-Holds : Holds new
unfolding lookup
new-Holds = record {
  base = record {
    fresh = record { above = λ k h. refl; resting = λ k. tt };
    tied = refl;
    safe = tt;
    told = refl;
  };
  view = (refl, refl, refl);
  stop_view = refl;
}

status_eq_lem : (a b : Status) → status_eq a b ≡ true → a ≡ b
status_eq_lem a b h = ground arith

-- A property of the fields after `#setStatus`: the status is set, and nothing else that counts.
pub by_status :
    (P : Fields → Type 0) (status : Status) (f : Fields)
    → ((t : List SupervisorEvent)
        → pending t ≡ pending f.trace
        → (IsSafe f.trace → IsSafe t)
        → (status_told f.trace ≡ f.status → status_told t ≡ status)
        → P (record f { status = status; trace = t }))
    → P (set_status status f)
by_status P status f h =
    by_if P (status_eq f.status status) _ _
      (λ same.
        subst P
          (ap (λ (x : Status). record f { status = x }) (sym (status_eq_lem f.status status same)))
          (h f.trace refl (λ safe. safe) (λ told. told ∙ status_eq_lem f.status status same)))
      (λ other. h (status_changed status ∷ f.trace) refl (λ safe. (tt, safe)) (λ told. refl))

has_id-drop_id : (j k : ℕ) (ks : List ℕ) → has_id k (drop_id j ks) ≡ true → has_id k ks ≡ true
has_id-drop_id j k [] h = h
has_id-drop_id j k (i ∷ ks) h = ground (arith, has_id-drop_id j k ks)

pub drop_id-IsAmong : (j : ℕ) (ks ids : List ℕ) → IsAmong ks ids → IsAmong (drop_id j ks) ids
drop_id-IsAmong j ks ids h k there = h k (has_id-drop_id j k ks there)
