-- ===== src/Client/OwnerTerms/Steps.antt =====
-- The operations of src/client/owner-terms.ts against the invariant.
use serial_broker.Prelude.{
  ℕ, suc, Bool, true, false, not, ◌&&◌, ◌||◌, none, some, List, [], ◌∷◌, ◌==◌, ◌≡◌, inl, inr, refl,
  sym, ◌∙◌, subst, arith, is_value, lookup, lookup-insert, ==_refl, Bool-cases, by_if, by_option,
}
use serial_broker.Client.OwnerTerms.{
  KnownTerm, OwnerTerms, checking, live, refused, is_checking, is_live, is_over, forget, remember,
  store, emit, empty, make_current, start_checking, new_entry, observe_known, observe, note_goodbye,
  heard_released, authorize, authorize_message, authorize_device, run_waiting, run_all_waiting,
  take_own, end_own, dispose, take_answer, check_answered, watch_granted, Call, hears, takes_own,
  ends_own, disposes, answers_check, grants_watch, step, run, held, free, unknown, LockState,
  checked_term_of, is_from, speaks_for_live_term, applied,
}
use serial_broker.Client.OwnerTerms.Messages.{
  TermClaim, Message, is_same_claim, speaks_for_owner, releases, answers, carries_device_data,
  speaks_for_writer,
}
use serial_broker.Client.OwnerTerms.Bounds.{lookup-IsIndexed, lookup-first_matching, length-remove}
use serial_broker.Client.OwnerTerms.Own.{lookup-remember}
use serial_broker.Client.OwnerTerms.Current.{
  Inv, Inv-same, store-Entries, not_current, remember-Inv, empty-Inv, forget-Entries,
}
use serial_broker.Client.OwnerTerms.Entries.{
  emit-Inv, store-Inv, found-IsQuiet, found_current, wait_for-Inv, end_term-Inv, not_known,
  make_current-Inv,
}

-- Every entry that is looked up stands under its own term.
at_own_term :
    (s : OwnerTerms) (term : ℕ) (e : KnownTerm)
    → Inv s
    → lookup term s.terms ≡ some e
    → lookup e.claim.term s.terms ≡ some e
at_own_term s term e v l =
    subst (λ k. lookup k s.terms ≡ some e)
      (sym (lookup-IsIndexed term e s.terms v.entries.indexed l)) l

start_checking-Inv :
    (claim : TermClaim) (m : Message) (s : OwnerTerms)
    → lookup claim.term s.terms ≡ none
    → Inv s
    → Inv (start_checking claim m s)
unfolding start_checking
start_checking-Inv claim m s new v = emit-Inv _ _ (
    remember-Inv (new_entry s.next_entry claim checking false (m ∷ []))
      (record s { next_entry = suc s.next_entry }) (omega arith, inl refl)
      (inl (not_known s.current claim.term s.terms v.entries.current_ok new))
      (Inv-same s _ refl refl v))

module _ (e : KnownTerm) (claim : TermClaim) (m : Message) (s : OwnerTerms) where
  observe_late :
      is_over e.phase || not (is_same_claim e.claim claim) ≡ false
      → is_checking e.phase ≡ false
      → e.is_succeeded ≡ true
      → observe_known e claim m s ≡ s
  unfolding observe_known
  observe_late fits checked late = ground (arith, fits, checked, late)

  observe_first :
      is_over e.phase || not (is_same_claim e.claim claim) ≡ false
      → is_checking e.phase ≡ false
      → e.is_succeeded ≡ false
      → observe_known e claim m s ≡ emit (applied m) (make_current e.claim.term s)
  unfolding observe_known
  observe_first fits checked first = ground (arith, fits, checked, first)

observe_known-Inv :
    (e : KnownTerm) (claim : TermClaim) (m : Message) (s : OwnerTerms)
    → lookup e.claim.term s.terms ≡ some e
    → Inv s
    → Inv (observe_known e claim m s)
unfolding observe_known
observe_known-Inv e claim m s l v =
    elim (Bool-cases (is_over e.phase || not (is_same_claim e.claim claim))) [
      | inl stale ↦ rw stale v
      | inr fits ↦ elim (Bool-cases (is_checking e.phase)) [
        | inl check ↦ rw (fits, check) (wait_for-Inv s v e l m check)
        | inr checked ↦ elim (Bool-cases e.is_succeeded) [
          | inl late ↦ subst Inv (sym (observe_late e claim m s fits checked late)) v
          | inr first ↦ subst Inv (sym (observe_first e claim m s fits checked first)) (
              emit-Inv _ _
                (make_current-Inv e.claim.term e s l (ground (arith, fits, checked), first) v))
        ]
      ]
    ]

observe-Inv : (claim : TermClaim) (m : Message) (s : OwnerTerms) → Inv s → Inv (observe claim m s)
unfolding observe
observe-Inv claim m s v =
    by_if Inv s.is_disposed _ _ (λ gone. v)
      (λ here.
        by_option Inv (lookup claim.term s.terms) _ _ (λ new. start_checking-Inv claim m s new v)
          (λ e found. observe_known-Inv e claim m s (at_own_term s claim.term e v found) v))

note_goodbye-Inv :
    (e : KnownTerm) (s : OwnerTerms)
    → lookup e.claim.term s.terms ≡ some e
    → Inv s
    → Inv (note_goodbye e s)
unfolding note_goodbye
note_goodbye-Inv e s l v =
    let told : KnownTerm = record e { has_heard_goodbye = true } in
    let kept : Inv (store told s) =
      store-Inv told e s l (found-IsQuiet s v e l) (found_current s v e l) v in
    by_if Inv e.is_ending _ _
      (λ ending.
        end_term-Inv (store told s) kept told
          (lookup-insert e.claim.term e.claim.term told s.terms ∙ rw (==_refl e.claim.term) refl))
      (λ not_ending. kept)

heard_released-Inv :
    (term from : ℕ) (m : Message) (s : OwnerTerms) → Inv s → Inv (heard_released term from m s)
unfolding heard_released
heard_released-Inv term from m s v =
    by_option Inv (lookup term s.terms) _ _ (λ gone. v)
      (λ e found.
        let l = at_own_term s term e v found in
        by_if Inv (not (e.claim.from == from)) _ _ (λ other. v)
          (λ same.
            by_if Inv (is_checking e.phase) _ _ (λ check. wait_for-Inv s v e l m check)
              (λ checked.
                by_if Inv (not (is_live e.phase) || e.is_own) _ _ (λ no. v)
                  (λ noted. note_goodbye-Inv e s l v))))

authorize_device-Inv :
    (from : ℕ) (m : Message) (s : OwnerTerms) → Inv s → Inv (authorize_device from m s)
unfolding authorize_device checked_term_of
authorize_device-Inv from m s v =
    by_if Inv (speaks_for_live_term from s) _ _ (λ believed. emit-Inv _ s v)
      (λ not_live.
        by_option Inv (checked_term_of from s) _ _ (λ nobody. v)
          (λ e found.
            let r =
              lookup-first_matching (λ e. e.claim.from == from && is_checking e.phase) s.terms e
                v.entries.indexed found in
            wait_for-Inv s v e r.0 m (ground (arith, r.1))))

authorize_message-Inv : (m : Message) (s : OwnerTerms) → Inv s → Inv (authorize_message m s)
unfolding authorize_message observe heard_released
authorize_message-Inv (speaks_for_owner claim n) s v = observe-Inv claim _ s v
authorize_message-Inv (releases term from) s v = heard_released-Inv term from _ s v
authorize_message-Inv (answers none from n) s v = v
authorize_message-Inv (answers (some term) from n) s v =
    by_if Inv (is_from term from s) _ _ (λ spoken. emit-Inv _ s v) (λ other. v)
authorize_message-Inv (carries_device_data from n) s v = authorize_device-Inv from _ s v
authorize_message-Inv (speaks_for_writer n) s v = emit-Inv _ s v

authorize-Inv : (m : Message) (s : OwnerTerms) → Inv s → Inv (authorize m s)
unfolding authorize
authorize-Inv m s v = by_if Inv s.is_disposed _ _ (λ gone. v) (λ here. authorize_message-Inv m s v)

run_waiting-Inv : (m : Message) (s : OwnerTerms) → Inv s → Inv (run_waiting m s)
unfolding run_waiting observe authorize heard_released
run_waiting-Inv (speaks_for_owner claim n) s v = observe-Inv claim _ s v
run_waiting-Inv (releases term from) s v = heard_released-Inv term from _ s v
run_waiting-Inv (answers term from n) s v = authorize-Inv (answers term from n) s v
run_waiting-Inv (carries_device_data from n) s v = authorize-Inv (carries_device_data from n) s v
run_waiting-Inv (speaks_for_writer n) s v = authorize-Inv (speaks_for_writer n) s v

run_all_waiting-Inv : (ms : List Message) (s : OwnerTerms) → Inv s → Inv (run_all_waiting ms s)
unfolding run_all_waiting
run_all_waiting-Inv [] s v = v
run_all_waiting-Inv (m ∷ ms) s v = run_all_waiting-Inv ms (run_waiting m s) (run_waiting-Inv m s v)

-- A check that was answered: an entry being checked is not the current one.
take_answer-Inv :
    (answer : LockState) (e : KnownTerm) (s : OwnerTerms)
    → lookup e.claim.term s.terms ≡ some e
    → is_checking e.phase ≡ true
    → Inv s
    → Inv (take_answer answer e s)
unfolding take_answer run_all_waiting forget
take_answer-Inv unknown e s l check v =
    let other : is_value s.current e.claim.term ≡ false =
      not_current s.current e s.terms v.entries.current_ok l (ground (arith, check)) in
    record {
      entries = forget-Entries e s other v.entries;
      bounded =
          let fewer = length-remove e.claim.term e s.terms l in omega (arith, fewer, v.bounded);
    }
take_answer-Inv free e s l check v =
    store-Inv (record e { phase = refused; waiting = [] }) e s l (omega arith, inr refl)
      (inl (not_current s.current e s.terms v.entries.current_ok l (ground (arith, check)))) v
take_answer-Inv held e s l check v = run_all_waiting-Inv e.waiting _ (
    emit-Inv _ _ (
      store-Inv (record e { phase = live; waiting = [] }) e s l (omega arith, inr refl)
        (inl (not_current s.current e s.terms v.entries.current_ok l (ground (arith, check)))) v))

check_answered-Inv :
    (id term : ℕ) (answer : LockState) (s : OwnerTerms)
    → Inv s
    → Inv (check_answered id term answer s)
unfolding check_answered
check_answered-Inv id term answer s v =
    by_option Inv (lookup term s.terms) _ _ (λ gone. v)
      (λ e found.
        by_if Inv (e.entry_id == id && is_checking e.phase) _ _
          (λ same.
            take_answer-Inv answer e s (at_own_term s term e v found) (ground (arith, same)) v)
          (λ other. v))

watch_granted-Inv :
    (id term : ℕ) (is_ending : Bool) (s : OwnerTerms)
    → Inv s
    → Inv (watch_granted id term is_ending s)
unfolding watch_granted
watch_granted-Inv id term is_ending s v =
    by_option Inv (lookup term s.terms) _ _ (λ gone. v)
      (λ e found.
        let l = at_own_term s term e v found in
        by_if Inv (not (e.entry_id == id && is_live e.phase)) _ _ (λ other. v)
          (λ same.
            by_if Inv (is_ending && not e.has_heard_goodbye) _ _
              (λ awaits.
                store-Inv (record e { is_ending = true }) e s l (found-IsQuiet s v e l)
                  (found_current s v e l) v)
              (λ over. end_term-Inv s v e l)))

take_own-Inv : (claim : TermClaim) (s : OwnerTerms) → Inv s → Inv (take_own claim s)
unfolding take_own
take_own-Inv claim s v =
    let t : OwnerTerms = record s { next_entry = suc s.next_entry } in
    let e : KnownTerm = new_entry s.next_entry claim live true [] in
    let kept : Inv t = Inv-same s t refl refl v in
    make_current-Inv claim.term e (remember e t)
      (lookup-remember e t (refl, refl) kept
        (store-Entries e t (omega arith, inr refl) (inr (refl, refl)) kept.entries))
      (refl, refl) (remember-Inv e t (omega arith, inr refl) (inr (refl, refl)) kept)

end_own-Inv : (term : ℕ) (s : OwnerTerms) → Inv s → Inv (end_own term s)
unfolding end_own
end_own-Inv term s v =
    by_option Inv (lookup term s.terms) _ _ (λ gone. v)
      (λ e found. end_term-Inv s v e (at_own_term s term e v found))

dispose-Inv : (s : OwnerTerms) → Inv (dispose s)
unfolding dispose
dispose-Inv s = record {
  entries = record { indexed = tt; quiet = tt; current_ok = tt };
  bounded = omega arith;
}

step-Inv : (c : Call) (s : OwnerTerms) → Inv s → Inv (step c s)
unfolding step
step-Inv (hears m) s v = authorize-Inv m s v
step-Inv (takes_own claim) s v = take_own-Inv claim s v
step-Inv (ends_own term) s v = end_own-Inv term s v
step-Inv disposes s v = dispose-Inv s
step-Inv (answers_check id term answer) s v = check_answered-Inv id term answer s v
step-Inv (grants_watch id term is_ending) s v = watch_granted-Inv id term is_ending s v

run-Inv : (cs : List Call) (s : OwnerTerms) → Inv s → Inv (run cs s)
unfolding run
run-Inv [] s v = v
run-Inv (c ∷ cs) s v = run-Inv cs (step c s) (step-Inv c s v)

-- After any history of messages, answers of the browser and calls: the tab keeps at most
-- `MAX_TERM_FLOOD` terms, each under its own name and with at most as many messages waiting, and
-- those only while its lock is being checked; and the current term, if there is one, is kept, is live,
-- and is not marked as succeeded by another.
pub terms-run-Inv : (cs : List Call) → Inv (run cs empty)
terms-run-Inv cs = run-Inv cs empty empty-Inv
