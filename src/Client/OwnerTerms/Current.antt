-- ===== src/Client/OwnerTerms/Current.antt =====
-- The invariant of `OwnerTerms`, and that forgetting keeps it.
use serial_broker.Prelude.{
  ℕ, zero, suc, ◌+◌, ◌≤◌, true, false, not, Option, none, some, ◌==◌, ◌≡◌, ◌⊎◌, inl, inr, refl, sym,
  ◌∙◌, subst, arith, leb, length, is_value, All, Table, lookup, insert, remove, values,
  lookup-insert, lookup-remove, ==_iff, Bool-cases, Option-cases,
}
use serial_broker.Client.OwnerTerms.{
  KnownTerm, OwnerTerms, is_checking, is_live, is_over, first_matching, oldest_to_forget, forget,
  trim, remember, store, max_term_flood, empty,
}
use serial_broker.Client.OwnerTerms.Bounds.{
  IsIndexed, IsQuiet, IsIndexed-insert, IsIndexed-remove, All-insert, All-remove,
  lookup-first_matching, length-remove, oldest_to_forget-some,
}

-- The entry may be the current one.
abbrev pub IsBelieved : KnownTerm → Type 0
IsBelieved e = (is_live e.phase ≡ true) × (e.is_succeeded ≡ false)

abbrev pub IsCurrent : Option ℕ → Table KnownTerm → Type 0
IsCurrent none m = Unit
IsCurrent (some term) m = (e : KnownTerm) × (lookup term m ≡ some e) × IsBelieved e

-- The table but for its size.
pub record Entries (s : OwnerTerms) : Type 0 where
  pub indexed : IsIndexed s.terms
  pub quiet : All IsQuiet (values s.terms)
  pub current_ok : IsCurrent s.current s.terms

pub record Inv (s : OwnerTerms) : Type 0 where
  pub entries : Entries s
  pub bounded : length s.terms ≤ max_term_flood

pub empty-Inv : Inv empty
empty-Inv = record {
  entries = record { indexed = tt; quiet = tt; current_ok = tt };
  bounded = omega arith;
}

-- The trace, the disposal and the count of entries are not what the invariant is about.
pub Entries-same :
    (s t : OwnerTerms) → t.terms ≡ s.terms → t.current ≡ s.current → Entries s → Entries t
Entries-same s t m c v = record {
  indexed = subst IsIndexed (sym m) v.indexed;
  quiet = subst (λ x. All IsQuiet (values x)) (sym m) v.quiet;
  current_ok =
      subst (λ x. IsCurrent t.current x) (sym m)
        (subst (λ x. IsCurrent x s.terms) (sym c) v.current_ok);
}

pub Inv-same : (s t : OwnerTerms) → t.terms ≡ s.terms → t.current ≡ s.current → Inv s → Inv t
Inv-same s t m c v = record {
  entries = Entries-same s t m c v.entries;
  bounded = subst (λ x. length x ≤ max_term_flood) (sym m) v.bounded;
}

pub IsCurrent-insert :
    (c : Option ℕ) (k : ℕ) (e : KnownTerm) (m : Table KnownTerm)
    → (is_value c k ≡ false) ⊎ IsBelieved e
    → IsCurrent c m
    → IsCurrent c (insert k e m)
IsCurrent-insert none k e m h v = tt
IsCurrent-insert (some term) k e m h v = elim (Bool-cases (k == term)) [
  | inl same ↦ elim h [
    | inl other ↦ ground (arith, same, other)
    | inr believed ↦ (e, lookup-insert k term e m ∙ rw same refl, believed)
  ]
  | inr other ↦ (v.0, lookup-insert k term e m ∙ rw other v.1, v.2)
]

IsCurrent-remove :
    (c : Option ℕ) (k : ℕ) (m : Table KnownTerm)
    → is_value c k ≡ false
    → IsCurrent c m
    → IsCurrent c (remove k m)
IsCurrent-remove none k m h v = tt
IsCurrent-remove (some term) k m h v =
    let other : k == term ≡ false = ground (arith, h) in
    (v.0, lookup-remove k term m ∙ rw other v.1, v.2)

pub store-Entries :
    (e : KnownTerm) (s : OwnerTerms)
    → IsQuiet e
    → (is_value s.current e.claim.term ≡ false) ⊎ IsBelieved e
    → Entries s
    → Entries (store e s)
store-Entries e s q b v = record {
  indexed = IsIndexed-insert e s.terms v.indexed;
  quiet = All-insert IsQuiet e.claim.term e s.terms q v.quiet;
  current_ok = IsCurrent-insert s.current e.claim.term e s.terms b v.current_ok;
}

pub forget-Entries :
    (e : KnownTerm) (s : OwnerTerms)
    → is_value s.current e.claim.term ≡ false
    → Entries s
    → Entries (forget e s)
unfolding forget
forget-Entries e s other v = record {
  indexed = IsIndexed-remove e.claim.term s.terms v.indexed;
  quiet = All-remove IsQuiet e.claim.term s.terms v.quiet;
  current_ok = IsCurrent-remove s.current e.claim.term s.terms other v.current_ok;
}

-- The current term is live.
pub not_current :
    (c : Option ℕ) (e : KnownTerm) (m : Table KnownTerm)
    → IsCurrent c m
    → lookup e.claim.term m ≡ some e
    → is_live e.phase ≡ false
    → is_value c e.claim.term ≡ false
not_current none e m v l dead = refl
not_current (some term) e m v l dead = elim (Bool-cases (term == e.claim.term)) [
  | inr other ↦ ground (arith, other)
  | inl same ↦
      let at_term : lookup term m ≡ some e =
        subst (λ k. lookup k m ≡ some e) (sym ((==_iff term e.claim.term).0 same)) l in
      ground (arith, at_term, v.1, v.2.0, dead)
]

-- An entry of the table is believed, or it is not the current one.
pub other_or_IsBelieved :
    (c : Option ℕ) (e : KnownTerm) (m : Table KnownTerm)
    → IsCurrent c m
    → lookup e.claim.term m ≡ some e
    → (is_value c e.claim.term ≡ false) ⊎ IsBelieved e
other_or_IsBelieved none e m v l = inl refl
other_or_IsBelieved (some term) e m v l = elim (Bool-cases (term == e.claim.term)) [
  | inr other ↦ inl (ground (arith, other))
  | inl same ↦
      let at_term : lookup term m ≡ some e =
        subst (λ k. lookup k m ≡ some e) (sym ((==_iff term e.claim.term).0 same)) l in
      let f≡e : v.0 ≡ e = ground (arith, at_term, v.1) in inr (subst IsBelieved f≡e v.2)
]

-- What `#remember` forgets is in the table, and not the current term.
pub forgettable :
    (s : OwnerTerms) (e : KnownTerm)
    → Entries s
    → oldest_to_forget s ≡ some e
    → (lookup e.claim.term s.terms ≡ some e) × (is_value s.current e.claim.term ≡ false)
unfolding oldest_to_forget
forgettable s e v o = elim (Option-cases (first_matching (λ e. is_over e.phase) (values s.terms))) [
  | inr (f, found) ↦
      let r =
        lookup-first_matching (λ e. is_over e.phase) s.terms e v.indexed
          (ground (arith, o, found)) in
      (r.0, not_current s.current e s.terms v.current_ok r.0 (ground (arith, r.1)))
  | inl no_over ↦ elim (Option-cases (first_matching (λ e. is_checking e.phase) (values s.terms))) [
    | inr (f, found) ↦
        let r =
          lookup-first_matching (λ e. is_checking e.phase) s.terms e v.indexed
            (ground (arith, o, no_over, found)) in
        (r.0, not_current s.current e s.terms v.current_ok r.0 (ground (arith, r.1)))
    | inl no_check ↦
        let r =
          lookup-first_matching (λ e. not (is_value s.current e.claim.term)) s.terms e v.indexed
            (ground (arith, o, no_over, no_check)) in
        (r.0, ground (arith, r.1))
  ]
]

pub trim-next :
    (n : ℕ) (s : OwnerTerms) (e : KnownTerm)
    → leb (length s.terms) max_term_flood ≡ false
    → oldest_to_forget s ≡ some e
    → trim (suc n) s ≡ trim n (forget e s)
unfolding trim
trim-next n s e over o = rw (over, o, trim) refl

pub trim-stop :
    (n : ℕ) (s : OwnerTerms) → leb (length s.terms) max_term_flood ≡ true → trim (suc n) s ≡ s
unfolding trim
trim-stop n s fits = rw fits refl

-- As many rounds as there are terms are enough.
trim-Inv :
    (n : ℕ) (s : OwnerTerms) → length s.terms ≤ max_term_flood + n → Entries s → Inv (trim n s)
unfolding trim forget
trim-Inv zero s b v = record { entries = v; bounded = omega (arith, b) }
trim-Inv (suc n) s b v = elim (Bool-cases (leb (length s.terms) max_term_flood)) [
  | inl fits ↦
      subst Inv (sym (trim-stop n s fits)) (record { entries = v; bounded = ground (arith, fits) })
  | inr over ↦
      let found = oldest_to_forget-some s v.indexed (ground (arith, over)) in
      let f = forgettable s found.0 v found.1 in
      subst Inv (sym (trim-next n s found.0 over found.1)) (
        trim-Inv n (forget found.0 s)
          (omega (arith, length-remove found.0.claim.term found.0 s.terms f.0, b))
          (forget-Entries found.0 s f.1 v))
]

pub remember-Inv :
    (e : KnownTerm) (s : OwnerTerms)
    → IsQuiet e
    → (is_value s.current e.claim.term ≡ false) ⊎ IsBelieved e
    → Inv s
    → Inv (remember e s)
unfolding remember
remember-Inv e s q b v =
    trim-Inv (length (store e s).terms) (store e s) (omega arith) (store-Entries e s q b v.entries)
