-- ===== src/Client/PendingWrites/Answers.antt =====
-- Who is told what: approvals, answers from a term, deadlines, and the end of a configuration.
use mathlib.Core.List.{Memᴰ}
use serial_broker.Prelude.{
  ℕ, true, false, Option, none, some, List, [], ◌∷◌, ◌≡◌, ◌≢◌, ◌⊎◌, ◌↔◌, refl, inl, inr, ◌==◌,
  arith, Table, lookup, insert, values, keys, lookup-insert, Bool-cases, Option-cases, ==_iff,
  ==_refl, subst, sym, ap, ◌∙◌, is_value, is_some, if◌then◌else◌,
}
use serial_broker.Core.Errors.{SerialBrokerError}
use serial_broker.Client.Deadline.{Deadline, run_timer}
use serial_broker.Client.PendingWrites.{
  PendingWrite, Host, Tracker, settled, rejected, settle, run_deadline, approve, handle_result,
  is_begun_in, fail_started, dispatch_waiting, handle_term_ended, fail_each, fail_all,
  timeout_error, owner_lost_error,
}
use serial_broker.Client.PendingWrites.Trace.{
  Agrees, open_grant, is_open, Inv, AreListed, AreListed-values,
}
use serial_broker.Client.PendingWrites.Steps.{fail_all-Inv}
use serial_broker.Client.PendingWrites.Effects.{
  lookup-settle, mem-fail_started, mem-dispatch_each, settle-AreListed, is_among,
  lookup_of_not_among,
}

-- A term is let begin a write exactly when the write is outstanding and was last handed to it.
pub approve_iff :
    (r term : ℕ) (s : Tracker)
    → ((approve r term s).1 ≡ true)
      ↔ ((p : PendingWrite) × (lookup r s.writes ≡ some p) × (p.addressed_term ≡ some term))
unfolding approve
approve_iff r term s = elim (Option-cases (lookup r s.writes)) [
  | inl gone ↦ rw (gone, approve) ((λ e. cc), (λ (p, found, _). cc found))
  | inr (p, found) ↦ elim (Bool-cases (is_value p.addressed_term term)) [
    | inl asked ↦ rw (found, approve) (rw asked ((λ _. (p, refl, ground arith)), (λ _. refl)))
    | inr wrong ↦ rw (found, approve) (rw wrong ((λ e. cc), (λ (q, same, asked). ground arith)))
  ]
]

-- An answer is taken only from the term that the request was last handed to: one that names no
-- term, an unknown request, or another term changes nothing.
pub handle_result_ignored :
    (h : Host) (r : ℕ) (term : Option ℕ) (error : Option SerialBrokerError) (s : Tracker)
    → ((p : PendingWrite) (t : ℕ)
        → lookup r s.writes ≡ some p
        → term ≡ some t
        → p.addressed_term ≢ some t)
    → handle_result h r term error s ≡ s
unfolding handle_result
handle_result_ignored h r none error s n = refl
handle_result_ignored h r (some t) error s n = elim (Option-cases (lookup r s.writes)) [
  | inl gone ↦ rw (gone, handle_result)
  | inr (p, found) ↦
      let other : is_value p.addressed_term t ≡ false = ground (arith, n p t found refl) in
      rw (found, handle_result) (rw other)
]

settle-rejects :
    (r : ℕ) (e : SerialBrokerError) (s : Tracker) (p : PendingWrite)
    → lookup r s.writes ≡ some p
    → (settle r (some e) s).trace ≡ settled r (rejected e) ∷ s.trace
unfolding settle
settle-rejects r e s p found = rw (found, settle)

-- Replacing the deadline of an entry that is then taken out shows in no other entry.
insert-timer :
    (r : ℕ) (p : PendingWrite) (d : Deadline) (s : Tracker)
    → let m = insert r (record p { deadline = d }) s.writes in
      ((j : ℕ)
        → lookup j m ≡ (if r == j then some (record p { deadline = d }) else lookup j s.writes))
      × ((j : ℕ)
          → (if r == j then none else lookup j m) ≡ (if r == j then none else lookup j s.writes))
insert-timer r p d s = (
  (λ j. lookup-insert r j _ s.writes),
  (λ j. elim (Bool-cases (r == j)) [
    | inl same ↦ rw same
    | inr other ↦ rw other (lookup-insert r j _ s.writes ∙ rw other)
  ]),
)

-- When the deadline of an outstanding write decides, its promise is rejected, the write leaves the
-- table with no other change to it, and the error says `started: true` exactly if, by the history, a
-- term was let begin the write and has not handed it back.
pub run_deadline_expired :
    (h : Host) (r : ℕ) (s : Tracker) (p : PendingWrite)
    → Inv s
    → lookup r s.writes ≡ some p
    → (run_timer h.monotonic_now p.deadline).1 ≡ true
    → ((run_deadline h r s).trace ≡ settled r (rejected (timeout_error h p)) ∷ s.trace)
      × ((timeout_error h p).context.started ≡ some (is_some (open_grant r s.trace)))
      × ((j : ℕ)
          → lookup j (run_deadline h r s).writes ≡ (if r == j then none else lookup j s.writes))
unfolding run_deadline
run_deadline_expired h r s p v found expired =
    let d = (run_timer h.monotonic_now p.deadline).0 in
    let s' : Tracker = record s { writes = insert r (record p { deadline = d }) s.writes } in
    let timed = insert-timer r p d s in
    rw (found, run_deadline)
      (rw expired (
        settle-rejects r (timeout_error h p) s' (record p { deadline = d })
            (timed.0 r ∙ rw (==_refl r)),
        ap (λ o. some (is_some o)) (sym (subst (λ o. Agrees r o s.trace) found (v.agrees r)).2),
        (λ j. lookup-settle r (some (timeout_error h p)) s' j ∙ timed.1 j),
      ))

-- The writes that a term had begun are rejected when it ends.
fail_started-rejects :
    (h : Host) (term : ℕ) (ps : List PendingWrite) (s : Tracker) (r : ℕ) (p : PendingWrite)
    → AreListed s.writes ps
    → is_among r ps ≡ true
    → lookup r s.writes ≡ some p
    → is_begun_in term p ≡ true
    → Memᴰ (settled r (rejected (owner_lost_error h p))) (fail_started h term ps s).trace
unfolding fail_started
fail_started-rejects h term [] s r p l there found begun = cc
fail_started-rejects h term (q ∷ ps) s r p l there found begun =
    elim (Bool-cases (q.request_id == r)) [
      | inl same ↦
          let q≡p : q ≡ p = cc (
            l.0,
            subst (λ i. lookup i s.writes ≡ some p) (sym ((==_iff q.request_id r).0 same)) found,
          ) in
          let begun' : is_begun_in term q ≡ true = ap (is_begun_in term) q≡p ∙ begun in
          rw (begun', fail_started)
            (mem-fail_started h term ps _ _ (
              rw (settle-rejects q.request_id (owner_lost_error h q) s q l.0)
                (Memᴰ.head (cc (q≡p, (==_iff q.request_id r).0 same)))))
      | inr other ↦ elim (Bool-cases (is_begun_in term q)) [
        | inl lost ↦
            rw (lost, fail_started)
              (fail_started-rejects h term ps (settle q.request_id (some (owner_lost_error h q)) s)
                r p (settle-AreListed q.request_id (some (owner_lost_error h q)) ps s l.1 l.2)
                (rw other at there)
                (lookup-settle q.request_id (some (owner_lost_error h q)) s r ∙ rw other found)
                begun)
        | inr kept ↦
            rw (kept, fail_started)
              (fail_started-rejects h term ps s r p l.2 (rw other at there) found begun)
      ]
    ]

-- When a term ends, the promise of every write that it had begun, and not handed back, is rejected
-- with `OWNER_LOST_DURING_WRITE`.
pub handle_term_ended-rejects :
    (h : Host) (term : ℕ) (s : Tracker) (r : ℕ) (p : PendingWrite)
    → Inv s
    → lookup r s.writes ≡ some p
    → open_grant r s.trace ≡ some term
    → Memᴰ (settled r (rejected (owner_lost_error h p))) (handle_term_ended h term s).trace
unfolding handle_term_ended dispatch_waiting is_begun_in
handle_term_ended-rejects h term s r p v found granted =
    let a = subst (λ o. Agrees r o s.trace) found (v.agrees r) in
    let s' = fail_started h term (values s.writes) s in
    mem-dispatch_each h (values s'.writes) s' _ (
      fail_started-rejects h term (values s.writes) s r p (AreListed-values s.writes v.keyed)
        (elim (Bool-cases (is_among r (values s.writes))) [
          | inl there ↦ there
          | inr gone ↦ cc (found, lookup_of_not_among r s.writes v.keyed gone)
        ])
        found (rw (sym a.2 ∙ granted, is_begun_in) (==_refl term)))

fail_each_all :
    (e : SerialBrokerError) (rs : List ℕ) (s : Tracker) (r : ℕ)
    → (lookup r s.writes ≡ none) ⊎ (Memᴰ r rs)
    → lookup r (fail_each e rs s).writes ≡ none
unfolding fail_each
fail_each_all e [] s r (inl gone) = gone
fail_each_all e [] s r (inr m) = elim m [ ]
fail_each_all e (q ∷ rs) s r (inl gone) =
    fail_each_all e rs _ r (inl (rw (lookup-settle q (some e) s r) (ground arith)))
fail_each_all e (q ∷ rs) s r (inr (Memᴰ.head same)) =
    fail_each_all e rs _ r (inl (rw (lookup-settle q (some e) s r) (ground arith)))
fail_each_all e (q ∷ rs) s r (inr (Memᴰ.tail m)) = fail_each_all e rs _ r (inr m)

lookup-keys : (r : ℕ) (m : Table PendingWrite) → (lookup r m ≡ none) ⊎ Memᴰ r (keys m)
unfolding lookup
lookup-keys r [] = inl refl
lookup-keys r ((k, p) ∷ m) = elim (Bool-cases (k == r)) [
  | inl same ↦ inr (Memᴰ.head (ground arith))
  | inr other ↦ elim (lookup-keys r m) [
    | inl gone ↦ inl (rw other gone)
    | inr there ↦ inr (Memᴰ.tail there)
  ]
]

-- `failAll` leaves no write in the table, and no promise open.
pub fail_all_closes :
    (e : SerialBrokerError) (s : Tracker) (r : ℕ)
    → Inv s
    → (lookup r (fail_all e s).writes ≡ none) × (is_open r (fail_all e s).trace ≡ false)
unfolding fail_all
fail_all_closes e s r v =
    let gone = fail_each_all e (keys s.writes) s r (lookup-keys r s.writes) in
    (gone, rw gone at ((fail_all-Inv e s v).agrees r))
