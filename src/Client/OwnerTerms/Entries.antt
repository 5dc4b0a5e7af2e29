-- ===== src/Client/OwnerTerms/Entries.antt =====
-- One entry of the table of terms changes (src/client/owner-terms.ts).
use serial_broker.Prelude.{
  ℕ, true, false, Option, none, some, [], ◌∷◌, ◌++◌, ◌==◌, ◌≡◌, ◌⊎◌, inl, inr, refl, sym, ap, ◌∙◌,
  subst, arith, leb, length, length-append, is_value, All, Table, lookup, insert, values,
  lookup-insert, ==_iff, Bool-cases, Option-cases,
}
use serial_broker.Client.OwnerTerms.{
  KnownTerm, OwnerTerms, TermEvent, ended, is_checking, is_ended, store, emit, max_term_flood,
  mark_succeeded, make_current, end_term, wait_for,
}
use serial_broker.Client.OwnerTerms.Messages.{Message}
use serial_broker.Client.OwnerTerms.Bounds.{
  IsIndexed, IsQuiet, All-lookup, lookup-IsIndexed, length-insert_known, IsIndexed-insert,
  All-insert,
}
use serial_broker.Client.OwnerTerms.Current.{
  Inv, IsBelieved, other_or_IsBelieved, IsCurrent-insert, IsCurrent, Inv-same, store-Entries,
}

pub emit-Inv : (e : TermEvent) (s : OwnerTerms) → Inv s → Inv (emit e s)
emit-Inv e s v = Inv-same s (emit e s) refl refl v

-- An entry of the table has changed.
pub store-Inv :
    (e old : KnownTerm) (s : OwnerTerms)
    → lookup e.claim.term s.terms ≡ some old
    → IsQuiet e
    → (is_value s.current e.claim.term ≡ false) ⊎ IsBelieved e
    → Inv s
    → Inv (store e s)
store-Inv e old s l q b v = record {
  entries = store-Entries e s q b v.entries;
  bounded =
      let same = length-insert_known e.claim.term e old s.terms l in omega (arith, same, v.bounded);
}

-- An entry that is found is in place, and quiet.
module _ (s : OwnerTerms) (v : Inv s) (e : KnownTerm)
    (l : lookup e.claim.term s.terms ≡ some e) where
  pub found-IsQuiet : IsQuiet e
  found-IsQuiet = All-lookup IsQuiet e.claim.term e s.terms l v.entries.quiet

  pub found_current : (is_value s.current e.claim.term ≡ false) ⊎ IsBelieved e
  found_current = other_or_IsBelieved s.current e s.terms v.entries.current_ok l

  pub wait_for-Inv : (m : Message) → is_checking e.phase ≡ true → Inv (wait_for e m s)
  unfolding wait_for
  wait_for-Inv m c = elim (Bool-cases (leb max_term_flood (length e.waiting))) [
    | inl full ↦ rw full v
    | inr room ↦ rw room (
        store-Inv (record e { waiting = e.waiting ++ m ∷ [] }) e s l
          (ground (arith, room, length-append e.waiting (m ∷ [])), inl c) found_current v)
  ]

  pub end_term-Inv : Inv (end_term e s)
  unfolding end_term
  end_term-Inv = elim (Bool-cases (is_ended e.phase)) [
    | inl over ↦ rw over v
    | inr open_still ↦ rw open_still (record {
      entries = record {
        indexed =
            IsIndexed-insert (record e { phase = ended; waiting = [] }) s.terms v.entries.indexed;
        quiet =
            All-insert IsQuiet e.claim.term (record e { phase = ended; waiting = [] }) s.terms
              (omega arith, inr refl) v.entries.quiet;
        current_ok = elim (Bool-cases (is_value s.current e.claim.term)) [
          | inl was ↦ rw was tt
          | inr other ↦ rw other (
              IsCurrent-insert s.current e.claim.term (record e { phase = ended; waiting = [] })
                s.terms (inl other) v.entries.current_ok)
        ];
      };
      bounded =
          let same =
            length-insert_known e.claim.term (record e { phase = ended; waiting = [] }) e s.terms
              l in
          omega (arith, same, v.bounded);
    })
  ]

mark_succeeded_gone :
    (p : ℕ) (m : Table KnownTerm) → lookup p m ≡ none → mark_succeeded (some p) m ≡ m
unfolding mark_succeeded
mark_succeeded_gone p m gone = rw (gone, mark_succeeded) refl

mark_succeeded_found :
    (p : ℕ) (f : KnownTerm) (m : Table KnownTerm)
    → lookup p m ≡ some f
    → mark_succeeded (some p) m ≡ insert p (record f { is_succeeded = true }) m
unfolding mark_succeeded
mark_succeeded_found p f m found = rw (found, mark_succeeded) refl

-- `#makeCurrent` of another term: the previous one stays as it is but for `isSucceeded`.
mark_succeeded_keeps :
    (c : Option ℕ) (m : Table KnownTerm)
    → IsIndexed m
    → All IsQuiet (values m)
    → IsIndexed (mark_succeeded c m)
      × All IsQuiet (values (mark_succeeded c m))
      × (length (mark_succeeded c m) ≡ length m)
unfolding mark_succeeded
mark_succeeded_keeps none m i q = (i, q, refl)
mark_succeeded_keeps (some p) m i q = elim (Option-cases (lookup p m)) [
  | inl gone ↦
      subst (λ t. IsIndexed t × All IsQuiet (values t) × (length t ≡ length m))
        (sym (mark_succeeded_gone p m gone)) (i, q, refl)
  | inr (f, found) ↦
      let at_p = lookup-IsIndexed p f m i found in
      subst (λ t. IsIndexed t × All IsQuiet (values t) × (length t ≡ length m))
        (sym (mark_succeeded_found p f m found))
        (
          subst (λ k. IsIndexed (insert k (record f { is_succeeded = true }) m)) at_p
              (IsIndexed-insert (record f { is_succeeded = true }) m i),
          All-insert IsQuiet p (record f { is_succeeded = true }) m
              (All-lookup IsQuiet p f m found q) q,
          length-insert_known p (record f { is_succeeded = true }) f m found,
        )
]

lookup-mark_succeeded :
    (c : Option ℕ) (term : ℕ) (m : Table KnownTerm)
    → is_value c term ≡ false
    → lookup term (mark_succeeded c m) ≡ lookup term m
unfolding mark_succeeded
lookup-mark_succeeded none term m other = refl
lookup-mark_succeeded (some p) term m other = elim (Option-cases (lookup p m)) [
  | inl gone ↦ ap (lookup term) (mark_succeeded_gone p m gone)
  | inr (f, found) ↦
      ap (lookup term) (mark_succeeded_found p f m found)
      ∙ lookup-insert p term (record f { is_succeeded = true }) m
      ∙ ground (arith, other)
]

pub not_known :
    (c : Option ℕ) (k : ℕ) (m : Table KnownTerm)
    → IsCurrent c m
    → lookup k m ≡ none
    → is_value c k ≡ false
not_known none k m v l = refl
not_known (some term) k m v l = elim (Bool-cases (term == k)) [
  | inr other ↦ ground (arith, other)
  | inl same ↦
      let at_term : lookup term m ≡ none = ap (λ x. lookup x m) ((==_iff term k).0 same) ∙ l in
      ground (arith, at_term, v.1)
]

pub make_current-Inv :
    (term : ℕ) (e : KnownTerm) (s : OwnerTerms)
    → lookup term s.terms ≡ some e
    → IsBelieved e
    → Inv s
    → Inv (make_current term s)
unfolding make_current mark_succeeded
make_current-Inv term e s l b v = elim (Bool-cases (is_value s.current term)) [
  | inl already ↦ rw already v
  | inr other ↦
      let kept = mark_succeeded_keeps s.current s.terms v.entries.indexed v.entries.quiet in
      rw other (record {
        entries = record {
          indexed = kept.0;
          quiet = kept.1;
          current_ok = (e, lookup-mark_succeeded s.current term s.terms other ∙ l, b);
        };
        bounded = omega (arith, kept.2, v.bounded);
      })
]
