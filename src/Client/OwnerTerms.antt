-- ===== src/Client/OwnerTerms.antt =====
-- src/client/owner-terms.ts: `OwnerTerms`, what one tab knows about the terms of holding the port. Terms,
-- contexts and messages are opaque values: numbers. `entry_id` is the identity of an entry object,
-- which the code compares when the browser answers a lock request later: each answer is an operation
-- of its own. What is run for a believed message, or once a check is answered, is named by the message.
-- `trace` is what the class asked for and told, newest first; the code acts on none of it.
pub mod Messages
pub mod Bounds
pub mod Current
pub mod Own
pub mod Entries
pub mod Steps
mod Tests
use serial_broker.Prelude.{
  ℕ, zero, suc, ◌+◌, Bool, true, false, not, ◌&&◌, ◌||◌, Option, none, some, List, [], ◌∷◌, ◌++◌,
  ◌==◌, if◌then◌else◌, leb, length, is_value, is_some, Table, lookup, insert, remove, values,
}
use serial_broker.Client.OwnerTerms.Messages.{
  TermClaim, is_same_claim, Message, speaks_for_owner, releases, answers, carries_device_data,
  speaks_for_writer,
}

abbrev pub max_term_flood : ℕ
max_term_flood = 16

pub data Phase : Type 0 where
  checking live ended refused : Phase

abbrev pub is_checking : Phase → Bool
is_checking checking = true
is_checking _ = false

abbrev pub is_live : Phase → Bool
is_live live = true
is_live _ = false

abbrev pub is_ended : Phase → Bool
is_ended ended = true
is_ended _ = false

abbrev pub is_over : Phase → Bool
is_over ended = true
is_over refused = true
is_over _ = false

pub record KnownTerm : Type 0 where
  pub entry_id : ℕ
  pub claim : TermClaim
  pub phase : Phase
  pub is_own : Bool
  pub is_succeeded : Bool
  pub is_ending : Bool
  pub has_heard_goodbye : Bool
  pub waiting : List Message

pub data TermEvent : Type 0 where
  applied : Message → TermEvent
  checks_lock : ℕ → TermClaim → TermEvent
  watches_lock : ℕ → TermClaim → TermEvent
  aborts_watch : ℕ → TermEvent
  term_ended : ℕ → ℕ → Bool → TermEvent

pub record OwnerTerms : Type 0 where
  pub terms : Table KnownTerm
  pub current : Option ℕ
  pub is_disposed : Bool
  pub next_entry : ℕ
  pub trace : List TermEvent

abbrev pub empty : OwnerTerms
empty = record { terms = []; current = none; is_disposed = false; next_entry = 0; trace = [] }

-- `isEnded`
pub is_term_ended : ℕ → OwnerTerms → Bool
is_term_ended term s = elim (lookup term s.terms) [ none ↦ false | some e ↦ is_ended e.phase ]

-- The entry object has changed: it is the one in the map.
abbrev pub store : KnownTerm → OwnerTerms → OwnerTerms
store e s = record s { terms = insert e.claim.term e s.terms }

abbrev pub emit : TermEvent → OwnerTerms → OwnerTerms
emit e s = record s { trace = e ∷ s.trace }

abbrev pub new_entry : ℕ → TermClaim → Phase → Bool → List Message → KnownTerm
new_entry id claim phase is_own waiting = record {
  entry_id = id;
  claim = claim;
  phase = phase;
  is_own = is_own;
  is_succeeded = false;
  is_ending = false;
  has_heard_goodbye = false;
  waiting = waiting;
}

-- `#firstMatching`
abbrev pub first_matching : (KnownTerm → Bool) → List KnownTerm → Option KnownTerm
first_matching test [] = none
first_matching test (e ∷ es) = let rest = first_matching test es in if test e then some e else rest

-- `??`
abbrev pub or_else {ℓ} : {A : Type ℓ} → Option A → Option A → Option A
or_else none y = y
or_else (some x) y = some x

pub forget : KnownTerm → OwnerTerms → OwnerTerms
forget e s = emit (aborts_watch e.entry_id) (record s { terms = remove e.claim.term s.terms })

-- What `#remember` forgets next.
pub oldest_to_forget : OwnerTerms → Option KnownTerm
oldest_to_forget s = or_else (first_matching (λ e. is_over e.phase) (values s.terms)) (
    or_else (first_matching (λ e. is_checking e.phase) (values s.terms))
      (first_matching (λ e. not (is_value s.current e.claim.term)) (values s.terms)))

-- The loop of `#remember`, for at most `n` rounds.
pub trim : ℕ → OwnerTerms → OwnerTerms
unfolding oldest_to_forget forget
trim zero s = s
trim (suc n) s =
    if leb (length s.terms) max_term_flood
    then s
    else (elim (oldest_to_forget s) [ none ↦ s | some oldest ↦ trim n (forget oldest s) ])

pub remember : KnownTerm → OwnerTerms → OwnerTerms
unfolding trim
remember e s = trim (length (store e s).terms) (store e s)

pub mark_succeeded : Option ℕ → Table KnownTerm → Table KnownTerm
mark_succeeded none m = m
mark_succeeded (some term) m = elim (lookup term m) [
  | none ↦ m
  | some e ↦ insert term (record e { is_succeeded = true }) m
]

pub make_current : ℕ → OwnerTerms → OwnerTerms
unfolding mark_succeeded
make_current term s =
    if is_value s.current term
    then s
    else record s { terms = mark_succeeded s.current s.terms; current = some term }

-- `#end`
pub end_term : KnownTerm → OwnerTerms → OwnerTerms
end_term e s =
    if is_ended e.phase
    then s
    else let was_current = is_value s.current e.claim.term in
      emit (term_ended e.entry_id e.claim.term was_current) (
        emit (aborts_watch e.entry_id) (record s {
          terms = insert e.claim.term (record e { phase = ended; waiting = [] }) s.terms;
          current = if was_current then none else s.current;
        }))

pub wait_for : KnownTerm → Message → OwnerTerms → OwnerTerms
wait_for e m s =
    if leb max_term_flood (length e.waiting)
    then s
    else store (record e { waiting = e.waiting ++ m ∷ [] }) s

pub start_checking : TermClaim → Message → OwnerTerms → OwnerTerms
unfolding remember
start_checking claim m s = emit (checks_lock s.next_entry claim) (
    remember (new_entry s.next_entry claim checking false (m ∷ []))
      (record s { next_entry = suc s.next_entry }))

-- `#observe` of a claim in a term that the tab knows.
pub observe_known : KnownTerm → TermClaim → Message → OwnerTerms → OwnerTerms
unfolding wait_for make_current
observe_known e claim m s =
    if is_over e.phase || not (is_same_claim e.claim claim)
    then s
    else if is_checking e.phase
    then wait_for e m s
    else if e.is_succeeded
    then s
    else emit (applied m) (make_current e.claim.term s)

pub observe : TermClaim → Message → OwnerTerms → OwnerTerms
unfolding start_checking observe_known
observe claim m s = if s.is_disposed then s else (elim (lookup claim.term s.terms) [
  | none ↦ start_checking claim m s
  | some e ↦ observe_known e claim m s
])

-- `owner-released` from the holder of a live term that is not the tab's own.
abbrev pub note_goodbye : KnownTerm → OwnerTerms → OwnerTerms
unfolding end_term
note_goodbye e s =
    let told : KnownTerm = record e { has_heard_goodbye = true } in
    if e.is_ending then end_term told (store told s) else store told s

pub heard_released : ℕ → ℕ → Message → OwnerTerms → OwnerTerms
unfolding wait_for end_term
heard_released term from m s = elim (lookup term s.terms) [
  | none ↦ s
  | some e ↦
      if not (e.claim.from == from)
      then s
      else if is_checking e.phase
      then wait_for e m s
      else if not (is_live e.phase) || e.is_own
      then s
      else note_goodbye e s
]

-- `#isFrom`
pub is_from : ℕ → ℕ → OwnerTerms → Bool
is_from term from s = elim (lookup term s.terms) [
  | none ↦ false
  | some e ↦ not (is_over e.phase && not (is_ended e.phase)) && e.claim.from == from
]

abbrev pub is_some_live : ℕ → List KnownTerm → Bool
is_some_live from [] = false
is_some_live from (e ∷ es) = (e.claim.from == from && is_live e.phase) || is_some_live from es

pub speaks_for_live_term : ℕ → OwnerTerms → Bool
speaks_for_live_term from s = is_some_live from (values s.terms)

pub checked_term_of : ℕ → OwnerTerms → Option KnownTerm
checked_term_of from s =
    first_matching (λ e. e.claim.from == from && is_checking e.phase) (values s.terms)

abbrev pub authorize_answer : Option ℕ → ℕ → Message → OwnerTerms → OwnerTerms
unfolding is_from
authorize_answer none from m s = s
authorize_answer (some term) from m s = if is_from term from s then emit (applied m) s else s

abbrev pub authorize_device : ℕ → Message → OwnerTerms → OwnerTerms
unfolding speaks_for_live_term checked_term_of wait_for
authorize_device from m s =
    if speaks_for_live_term from s
    then emit (applied m) s
    else (elim (checked_term_of from s) [ none ↦ s | some e ↦ wait_for e m s ])

abbrev pub authorize_message : Message → OwnerTerms → OwnerTerms
unfolding observe heard_released is_from speaks_for_live_term checked_term_of wait_for
authorize_message (speaks_for_owner claim n) s = observe claim (speaks_for_owner claim n) s
authorize_message (releases term from) s = heard_released term from (releases term from) s
authorize_message (answers term from n) s = authorize_answer term from (answers term from n) s
authorize_message (carries_device_data from n) s =
    authorize_device from (carries_device_data from n) s
authorize_message (speaks_for_writer n) s = emit (applied (speaks_for_writer n)) s

pub authorize : Message → OwnerTerms → OwnerTerms
unfolding observe heard_released is_from speaks_for_live_term checked_term_of wait_for
authorize m s = if s.is_disposed then s else authorize_message m s

-- What the closure kept for `m` runs, once the check of its term is answered.
abbrev run_waiting : Message → OwnerTerms → OwnerTerms
unfolding observe heard_released authorize
run_waiting (speaks_for_owner claim n) s = observe claim (speaks_for_owner claim n) s
run_waiting (releases term from) s = heard_released term from (releases term from) s
run_waiting m s = authorize m s

pub run_all_waiting : List Message → OwnerTerms → OwnerTerms
unfolding observe heard_released authorize
run_all_waiting [] s = s
run_all_waiting (m ∷ ms) s = run_all_waiting ms (run_waiting m s)

pub take_own : TermClaim → OwnerTerms → OwnerTerms
unfolding remember make_current
take_own claim s = make_current claim.term (
    remember (new_entry s.next_entry claim live true [])
      (record s { next_entry = suc s.next_entry }))

pub end_own : ℕ → OwnerTerms → OwnerTerms
unfolding end_term
end_own term s = elim (lookup term s.terms) [ none ↦ s | some e ↦ end_term e s ]

abbrev abort_each : List KnownTerm → List TermEvent → List TermEvent
abort_each [] es = es
abort_each (e ∷ rest) es = abort_each rest (aborts_watch e.entry_id ∷ es)

pub dispose : OwnerTerms → OwnerTerms
dispose s = record s {
  is_disposed = true;
  terms = [];
  current = none;
  trace = abort_each (values s.terms) s.trace;
}

-- The answer of `#checkLock`.
pub data LockState : Type 0 where
  held free unknown : LockState

abbrev pub take_answer : LockState → KnownTerm → OwnerTerms → OwnerTerms
unfolding forget run_all_waiting
take_answer unknown e s = forget e s
take_answer free e s = store (record e { phase = refused; waiting = [] }) s
take_answer held e s =
    run_all_waiting e.waiting
      (emit (watches_lock e.entry_id e.claim) (store (record e { phase = live; waiting = [] }) s))

-- The check of the entry `id` of `term` has been answered.
pub check_answered : ℕ → ℕ → LockState → OwnerTerms → OwnerTerms
unfolding forget run_all_waiting
check_answered id term answer s = elim (lookup term s.terms) [
  | none ↦ s
  | some e ↦ if e.entry_id == id && is_checking e.phase then take_answer answer e s else s
]

-- The lock of the entry `id` of `term` has been granted, and `#isEndingCleanly` has answered.
pub watch_granted : ℕ → ℕ → Bool → OwnerTerms → OwnerTerms
unfolding end_term
watch_granted id term is_ending s = elim (lookup term s.terms) [
  | none ↦ s
  | some e ↦
      if not (e.entry_id == id && is_live e.phase)
      then s
      else if is_ending && not e.has_heard_goodbye
      then store (record e { is_ending = true }) s
      else end_term e s
]

pub data Call : Type 0 where
  hears : Message → Call
  takes_own : TermClaim → Call
  ends_own : ℕ → Call
  disposes : Call
  answers_check : ℕ → ℕ → LockState → Call
  grants_watch : ℕ → ℕ → Bool → Call

pub step : Call → OwnerTerms → OwnerTerms
unfolding authorize take_own end_own dispose check_answered watch_granted
step (hears m) s = authorize m s
step (takes_own claim) s = take_own claim s
step (ends_own term) s = end_own term s
step disposes s = dispose s
step (answers_check id term answer) s = check_answered id term answer s
step (grants_watch id term is_ending) s = watch_granted id term is_ending s

pub run : List Call → OwnerTerms → OwnerTerms
unfolding step
run [] s = s
run (c ∷ cs) s = run cs (step c s)
