-- ===== src/Client/PendingWrites/Effects.antt =====
-- What the loops of src/client/pending-writes.ts do to the table and to the trace.
use serial_broker.Prelude.{
  ℕ, Bool, true, false, Option, none, some, List, [], ◌∷◌, ◌≡◌, ◌||◌, refl, inl, inr, ◌==◌, arith,
  Table, lookup, values, lookup-insert, lookup-remove, Bool-cases, Option-cases, ==_iff, subst, ap,
  ◌∙◌, if◌then◌else◌,
}
use mathlib.Core.Option
use mathlib.Core.List.{Memᴰ}
use serial_broker.Core.Errors.{SerialBrokerError}
use serial_broker.Client.PendingWrites.{
  PendingWrite, Host, Tracker, TraceEvent, dispatch_target, dispatch, settle, is_begun_in,
  fail_started, dispatch_each, dispatch_waiting, handle_term_ended, owner_lost_error,
}
use serial_broker.Client.PendingWrites.Steps.{fail_started-Inv}
use serial_broker.Client.PendingWrites.Trace.{
  Inv, IsKeyed, IsFresh, AreListed, AreListed-insert, AreListed-values,
}

-- A write as `#dispatch` leaves it.
pub handed_on : Host → PendingWrite → PendingWrite
unfolding dispatch_target
handed_on h p = elim (dispatch_target h p) [
  | none ↦ p
  | some t ↦ record p { is_dispatched = true; addressed_term = some t }
]

pub handed_on_stays : (h : Host) (p : PendingWrite) → dispatch_target h p ≡ none → handed_on h p ≡ p
unfolding handed_on
handed_on_stays h p e = rw (e, handed_on)

pub handed_on_goes :
    (h : Host) (p : PendingWrite) (t : ℕ)
    → dispatch_target h p ≡ some t
    → handed_on h p ≡ record p { is_dispatched = true; addressed_term = some t }
unfolding handed_on
handed_on_goes h p t e = rw (e, handed_on)

lookup-dispatch :
    (h : Host) (p : PendingWrite) (s : Tracker) (r : ℕ)
    → lookup p.request_id s.writes ≡ some p
    → lookup r (dispatch h p s).writes
      ≡ (if p.request_id == r then some (handed_on h p) else lookup r s.writes)
unfolding dispatch
lookup-dispatch h p s r e = elim (Option-cases (dispatch_target h p)) [
  | inl stays ↦ elim (Bool-cases (p.request_id == r)) [
    | inl same ↦
        rw (stays, same, dispatch)
          (rw (handed_on_stays h p stays)
            (subst (λ i. lookup i s.writes ≡ some p) ((==_iff _ r).0 same) e))
    | inr other ↦ rw (stays, other, dispatch)
  ]
  | inr (t, goes) ↦
      rw (goes, dispatch) (rw (handed_on_goes h p t goes) (lookup-insert p.request_id r _ s.writes))
]

-- The table after a loop over some of its writes.
abbrev pub is_among : ℕ → List PendingWrite → Bool
is_among r [] = false
is_among r (p ∷ ps) = p.request_id == r || is_among r ps

pub IsFresh-is_among : (r : ℕ) (ps : List PendingWrite) → IsFresh r ps → is_among r ps ≡ false
IsFresh-is_among r [] f = refl
IsFresh-is_among r (p ∷ ps) f = ground (arith, IsFresh-is_among r ps f.1)

-- A key that no write has is not in the table.
pub lookup_of_not_among :
    (r : ℕ) (m : Table PendingWrite) → IsKeyed m → is_among r (values m) ≡ false → lookup r m ≡ none
unfolding lookup
lookup_of_not_among r [] k n = refl
lookup_of_not_among r ((i, p) ∷ m) k n = rw (← k.0) (ground (arith, lookup_of_not_among r m k.2))

dispatch-AreListed :
    (h : Host) (p : PendingWrite) (ps : List PendingWrite) (s : Tracker)
    → IsFresh p.request_id ps
    → AreListed s.writes ps
    → AreListed (dispatch h p s).writes ps
unfolding dispatch
dispatch-AreListed h p ps s f l = elim (Option-cases (dispatch_target h p)) [
  | inl stays ↦ rw (stays, dispatch) l
  | inr (t, goes) ↦ rw (goes, dispatch) (AreListed-insert p.request_id _ s.writes ps f l)
]

lookup-dispatch_each :
    (h : Host) (ps : List PendingWrite) (s : Tracker) (r : ℕ)
    → AreListed s.writes ps
    → lookup r (dispatch_each h ps s).writes
      ≡ (if is_among r ps then Option.map (handed_on h) (lookup r s.writes) else lookup r s.writes)
unfolding dispatch_each
lookup-dispatch_each h [] s r l = refl
lookup-dispatch_each h (p ∷ ps) s r l =
    lookup-dispatch_each h ps (dispatch h p s) r (dispatch-AreListed h p ps s l.1 l.2)
    ∙ rw (lookup-dispatch h p s r l.0) (elim (Bool-cases (p.request_id == r)) [
      | inl same ↦
          let e : p.request_id ≡ r = (==_iff _ r).0 same in
          rw (same, IsFresh-is_among r ps (subst (λ i. IsFresh i ps) e l.1))
            (rw (subst (λ i. lookup i s.writes ≡ some p) e l.0))
      | inr other ↦ rw other
    ])

-- `dispatchWaiting` hands every outstanding write on as `#dispatch` decides from what it was when
-- the loop began, and does nothing else to the table.
pub lookup-dispatch_waiting :
    (h : Host) (s : Tracker) (r : ℕ)
    → Inv s
    → lookup r (dispatch_waiting h s).writes ≡ Option.map (handed_on h) (lookup r s.writes)
unfolding dispatch_waiting
lookup-dispatch_waiting h s r v =
    lookup-dispatch_each h (values s.writes) s r (AreListed-values s.writes v.keyed)
    ∙ elim (Bool-cases (is_among r (values s.writes))) [
      | inl there ↦ rw there
      | inr gone ↦ rw gone (rw (lookup_of_not_among r s.writes v.keyed gone))
    ]

-- What is left of an entry after its promise was rejected if `lost` holds of it.
abbrev pub unless {ℓ} : {A : Type ℓ} → (A → Bool) → Option A → Option A
unless lost none = none
unless lost (some p) = if lost p then none else some p

pub lookup-settle :
    (q : ℕ) (error : Option SerialBrokerError) (s : Tracker) (r : ℕ)
    → lookup r (settle q error s).writes ≡ (if q == r then none else lookup r s.writes)
unfolding settle
lookup-settle q error s r = elim (Option-cases (lookup q s.writes)) [
  | inl gone ↦ elim (Bool-cases (q == r)) [
    | inl same ↦
        rw (gone, same, settle) (subst (λ i. lookup i s.writes ≡ none) ((==_iff q r).0 same) gone)
    | inr other ↦ rw (gone, other, settle)
  ]
  | inr (p, e) ↦ rw (e, settle) (lookup-remove q r s.writes)
]

pub settle-AreListed :
    (q : ℕ) (error : Option SerialBrokerError) (ps : List PendingWrite) (s : Tracker)
    → IsFresh q ps
    → AreListed s.writes ps
    → AreListed (settle q error s).writes ps
settle-AreListed q error [] s f l = tt
settle-AreListed q error (p ∷ ps) s f l = (
  ground (arith, lookup-settle q error s p.request_id),
  l.1,
  settle-AreListed q error ps s f.1 l.2,
)

lookup-fail_started :
    (h : Host) (term : ℕ) (ps : List PendingWrite) (s : Tracker) (r : ℕ)
    → AreListed s.writes ps
    → lookup r (fail_started h term ps s).writes
      ≡ (if is_among r ps then unless (is_begun_in term) (lookup r s.writes) else lookup r s.writes)
unfolding fail_started
lookup-fail_started h term [] s r l = refl
lookup-fail_started h term (p ∷ ps) s r l = elim (Bool-cases (is_begun_in term p)) [
  | inl lost ↦
      rw (lost, fail_started)
        (lookup-fail_started h term ps (settle p.request_id (some (owner_lost_error h p)) s) r
            (settle-AreListed p.request_id (some (owner_lost_error h p)) ps s l.1 l.2)
          ∙ rw (lookup-settle p.request_id (some (owner_lost_error h p)) s r)
              (elim (Bool-cases (p.request_id == r)) [
                | inl same ↦
                    let e : p.request_id ≡ r = (==_iff _ r).0 same in
                    rw (same, IsFresh-is_among r ps (subst (λ i. IsFresh i ps) e l.1))
                      (rw (subst (λ i. lookup i s.writes ≡ some p) e l.0) (rw lost))
                | inr other ↦ rw other
              ]))
  | inr kept ↦
      rw (kept, fail_started)
        (lookup-fail_started h term ps s r l.2 ∙ elim (Bool-cases (p.request_id == r)) [
          | inl same ↦
              let e : p.request_id ≡ r = (==_iff _ r).0 same in
              rw (same, IsFresh-is_among r ps (subst (λ i. IsFresh i ps) e l.1))
                (rw (subst (λ i. lookup i s.writes ≡ some p) e l.0) (rw kept))
          | inr other ↦ rw other
        ])
]

-- When a term ends, every write that it had begun leaves the table, and every other one is handed on
-- as `#dispatch` decides; nothing else changes.
pub lookup-handle_term_ended :
    (h : Host) (term : ℕ) (s : Tracker) (r : ℕ)
    → Inv s
    → lookup r (handle_term_ended h term s).writes
      ≡ Option.map (handed_on h) (unless (is_begun_in term) (lookup r s.writes))
unfolding handle_term_ended
lookup-handle_term_ended h term s r v =
    lookup-dispatch_waiting h _ r (fail_started-Inv h term (values s.writes) s v)
    ∙ ap (Option.map (handed_on h)) (
        lookup-fail_started h term (values s.writes) s r (AreListed-values s.writes v.keyed)
        ∙ elim (Bool-cases (is_among r (values s.writes))) [
          | inl there ↦ rw there
          | inr gone ↦ rw gone (rw (lookup_of_not_among r s.writes v.keyed gone))
        ])

-- The trace only grows.
mem-dispatch :
    (h : Host) (p : PendingWrite) (s : Tracker) (e : TraceEvent)
    → Memᴰ e s.trace
    → Memᴰ e (dispatch h p s).trace
unfolding dispatch
mem-dispatch h p s e m = elim (Option-cases (dispatch_target h p)) [
  | inl stays ↦ rw (stays, dispatch) m
  | inr (t, goes) ↦ rw (goes, dispatch) (Memᴰ.tail m)
]

pub mem-dispatch_each :
    (h : Host) (ps : List PendingWrite) (s : Tracker) (e : TraceEvent)
    → Memᴰ e s.trace
    → Memᴰ e (dispatch_each h ps s).trace
unfolding dispatch_each
mem-dispatch_each h [] s e m = m
mem-dispatch_each h (p ∷ ps) s e m =
    mem-dispatch_each h ps (dispatch h p s) e (mem-dispatch h p s e m)

mem-settle :
    (q : ℕ) (error : Option SerialBrokerError) (s : Tracker) (e : TraceEvent)
    → Memᴰ e s.trace
    → Memᴰ e (settle q error s).trace
unfolding settle
mem-settle q error s e m = elim (Option-cases (lookup q s.writes)) [
  | inl gone ↦ rw (gone, settle) m
  | inr (p, found) ↦ rw (found, settle) (Memᴰ.tail m)
]

pub mem-fail_started :
    (h : Host) (term : ℕ) (ps : List PendingWrite) (s : Tracker) (e : TraceEvent)
    → Memᴰ e s.trace
    → Memᴰ e (fail_started h term ps s).trace
unfolding fail_started
mem-fail_started h term [] s e m = m
mem-fail_started h term (p ∷ ps) s e m = elim (Bool-cases (is_begun_in term p)) [
  | inl lost ↦
      rw (lost, fail_started)
        (mem-fail_started h term ps _ e
          (mem-settle p.request_id (some (owner_lost_error h p)) s e m))
  | inr kept ↦ rw (kept, fail_started) (mem-fail_started h term ps s e m)
]
