-- ===== src/Client/OwnerTerms/Bounds.antt =====
-- The table of terms and the bound of `#remember` (src/client/owner-terms.ts).
use serial_broker.Prelude.{
  ℕ, suc, ◌≤◌, ◌<◌, Bool, true, false, not, Option, none, some, [], ◌∷◌, ◌==◌, ◌≡◌, ◌⊎◌, inl, inr,
  refl, sym, ap, ◌∙◌, subst, arith, length, is_value, All, Table, lookup, insert, remove, values,
  ==_iff, Bool-cases, Option-cases,
}
use serial_broker.Client.OwnerTerms.{
  KnownTerm, OwnerTerms, is_checking, first_matching, oldest_to_forget, max_term_flood,
}

-- No entry of the table has the key.
abbrev pub IsFresh : ℕ → Table KnownTerm → Type 0
IsFresh k [] = Unit
IsFresh k ((j, e) ∷ m) = (j == k ≡ false) × IsFresh k m

-- Every entry stands under its own term, and no term has two.
abbrev pub IsIndexed : Table KnownTerm → Type 0
IsIndexed [] = Unit
IsIndexed ((k, e) ∷ m) = (e.claim.term ≡ k) × IsFresh k m × IsIndexed m

-- Messages wait only while the lock of their term is being checked, and only so many.
abbrev pub IsQuiet : KnownTerm → Type 0
IsQuiet e = (length e.waiting ≤ max_term_flood) × ((is_checking e.phase ≡ true) ⊎ (e.waiting ≡ []))

IsFresh-insert :
    (k j : ℕ) (e : KnownTerm) (m : Table KnownTerm)
    → j == k ≡ false
    → IsFresh k m
    → IsFresh k (insert j e m)
unfolding insert
IsFresh-insert k j e [] d h = (d, tt)
IsFresh-insert k j e ((i, f) ∷ m) d h = elim (Bool-cases (i == j)) [
  | inl same ↦ rw same (h.0, h.1)
  | inr other ↦ rw other (h.0, IsFresh-insert k j e m d h.1)
]

IsFresh-remove : (k j : ℕ) (m : Table KnownTerm) → IsFresh k m → IsFresh k (remove j m)
unfolding remove
IsFresh-remove k j [] h = tt
IsFresh-remove k j ((i, f) ∷ m) h = ground (arith, IsFresh-remove k j m h.1)

lookup-IsFresh : (k : ℕ) (m : Table KnownTerm) → IsFresh k m → lookup k m ≡ none
unfolding lookup
lookup-IsFresh k [] h = refl
lookup-IsFresh k ((i, f) ∷ m) h = rw h.0 (lookup-IsFresh k m h.1)

pub IsIndexed-insert :
    (e : KnownTerm) (m : Table KnownTerm) → IsIndexed m → IsIndexed (insert e.claim.term e m)
unfolding insert
IsIndexed-insert e [] h = (refl, tt, tt)
IsIndexed-insert e ((i, f) ∷ m) h = elim (Bool-cases (i == e.claim.term)) [
  | inl same ↦ rw same (sym ((==_iff i e.claim.term).0 same), h.1, h.2)
  | inr other ↦
      rw other (
        h.0,
        IsFresh-insert i e.claim.term e m (ground (arith, other)) h.1,
        IsIndexed-insert e m h.2,
      )
]

pub IsIndexed-remove : (k : ℕ) (m : Table KnownTerm) → IsIndexed m → IsIndexed (remove k m)
unfolding remove
IsIndexed-remove k [] h = tt
IsIndexed-remove k ((i, f) ∷ m) h = elim (Bool-cases (i == k)) [
  | inl same ↦ rw same (IsIndexed-remove k m h.2)
  | inr other ↦ rw other (h.0, IsFresh-remove i k m h.1, IsIndexed-remove k m h.2)
]

module _ (P : KnownTerm → Type 0) where
  pub All-insert :
      (k : ℕ) (e : KnownTerm) (m : Table KnownTerm)
      → P e
      → All P (values m)
      → All P (values (insert k e m))
  unfolding insert
  All-insert k e [] p h = (p, tt)
  All-insert k e ((i, f) ∷ m) p h = elim (Bool-cases (i == k)) [
    | inl same ↦ rw same (p, h.1)
    | inr other ↦ rw other (h.0, All-insert k e m p h.1)
  ]

  pub All-remove : (k : ℕ) (m : Table KnownTerm) → All P (values m) → All P (values (remove k m))
  unfolding remove
  All-remove k [] h = tt
  All-remove k ((i, f) ∷ m) h = elim (Bool-cases (i == k)) [
    | inl same ↦ rw same (All-remove k m h.1)
    | inr other ↦ rw other (h.0, All-remove k m h.1)
  ]

  pub All-lookup :
      (k : ℕ) (e : KnownTerm) (m : Table KnownTerm) → lookup k m ≡ some e → All P (values m) → P e
  unfolding lookup
  All-lookup k e [] l h = ground (arith, l)
  All-lookup k e ((i, f) ∷ m) l h = elim (Bool-cases (i == k)) [
    | inl same ↦ subst P (ground (arith, l, same)) h.0
    | inr other ↦ All-lookup k e m (ground (arith, l, other)) h.1
  ]

pub lookup-IsIndexed :
    (k : ℕ) (e : KnownTerm) (m : Table KnownTerm)
    → IsIndexed m
    → lookup k m ≡ some e
    → e.claim.term ≡ k
unfolding lookup
lookup-IsIndexed k e [] h l = ground (arith, l)
lookup-IsIndexed k e ((i, f) ∷ m) h l = elim (Bool-cases (i == k)) [
  | inl same ↦
      let e≡f : f ≡ e = ground (arith, l, same) in
      subst (λ x. x.claim.term ≡ k) e≡f (h.0 ∙ (==_iff i k).0 same)
  | inr other ↦ lookup-IsIndexed k e m h.2 (ground (arith, l, other))
]

-- What `#firstMatching` finds is in the table, under its own term.
pub lookup-first_matching :
    (test : KnownTerm → Bool) (m : Table KnownTerm) (e : KnownTerm)
    → IsIndexed m
    → first_matching test (values m) ≡ some e
    → (lookup e.claim.term m ≡ some e) × (test e ≡ true)
unfolding lookup
lookup-first_matching test [] e h l = ground (arith, l)
lookup-first_matching test ((i, f) ∷ m) e h l = elim (Bool-cases (test f)) [
  | inl holds ↦
      let f≡e : f ≡ e = ground (arith, l, holds) in
      let own : i == f.claim.term ≡ true = ground (arith, h.0) in
      (
        subst (λ x. lookup x.claim.term ((i, f) ∷ m) ≡ some x) f≡e (rw own refl),
        subst (λ x. test x ≡ true) f≡e holds,
      )
  | inr fails ↦
      let r = lookup-first_matching test m e h.2 (ground (arith, l, fails)) in
      (
        (elim (Bool-cases (i == e.claim.term)) [
          | inl same ↦
              let gone = lookup-IsFresh i m h.1 in
              ground (arith, r.0, gone, (==_iff i e.claim.term).0 same)
          | inr other ↦ rw other r.0
        ]),
        r.1,
      )
]

pub length-insert :
    (k : ℕ) (e : KnownTerm) (m : Table KnownTerm) → length (insert k e m) ≤ suc (length m)
unfolding insert
length-insert k e [] = omega arith
length-insert k e ((i, f) ∷ m) = ground (arith, length-insert k e m)

pub length-insert_known :
    (k : ℕ) (e f : KnownTerm) (m : Table KnownTerm)
    → lookup k m ≡ some f
    → length (insert k e m) ≡ length m
unfolding insert lookup
length-insert_known k e f [] l = ground (arith, l)
length-insert_known k e f ((i, g) ∷ m) l = elim (Bool-cases (i == k)) [
  | inl same ↦ rw same refl
  | inr other ↦ rw other (ap suc (length-insert_known k e f m (ground (arith, l, other))))
]

pub length-remove_le : (k : ℕ) (m : Table KnownTerm) → length (remove k m) ≤ length m
unfolding remove
length-remove_le k [] = omega arith
length-remove_le k ((i, f) ∷ m) = ground (arith, length-remove_le k m)

pub length-remove :
    (k : ℕ) (e : KnownTerm) (m : Table KnownTerm)
    → lookup k m ≡ some e
    → length (remove k m) < length m
unfolding remove lookup
length-remove k e [] l = ground (arith, l)
length-remove k e ((i, f) ∷ m) l = elim (Bool-cases (i == k)) [
  | inl same ↦ rw same (omega (arith, length-remove_le k m))
  | inr other ↦
      let h = length-remove k e m (ground (arith, l, other)) in rw other (omega (arith, h))
]

-- Nothing found: the test holds of no entry.
pub first_matching-none :
    (test : KnownTerm → Bool) (m : Table KnownTerm)
    → first_matching test (values m) ≡ none
    → All (λ e. test e ≡ false) (values m)
first_matching-none test [] l = tt
first_matching-none test ((i, f) ∷ m) l = elim (Bool-cases (test f)) [
  | inl holds ↦ ground (arith, l, holds)
  | inr fails ↦ (fails, first_matching-none test m (ground (arith, l, fails)))
]

-- Every entry stands under the one key that there is.
pub only_current :
    (c : Option ℕ) (m : Table KnownTerm)
    → IsIndexed m
    → All (λ e. not (is_value c e.claim.term) ≡ false) (values m)
    → length m ≤ 1
only_current c [] h a = omega arith
only_current c ((i, f) ∷ []) h a = omega arith
only_current c ((i, f) ∷ (j, g) ∷ m) h a = ground (arith, h.0, h.1.0, h.2.0, a.0, a.1.0)

-- Of two entries, one can be forgotten.
pub oldest_to_forget-some :
    (s : OwnerTerms)
    → IsIndexed s.terms
    → 1 < length s.terms
    → (e : KnownTerm) × (oldest_to_forget s ≡ some e)
unfolding oldest_to_forget
oldest_to_forget-some s h two = elim (Option-cases (oldest_to_forget s)) [
  | inr found ↦ found
  | inl nothing ↦
      let l : first_matching (λ e. not (is_value s.current e.claim.term)) (values s.terms) ≡ none =
        ground (arith, nothing) in
      let short = only_current s.current s.terms h (first_matching-none _ s.terms l) in
      let absurd : ⊥ = omega (arith, short, two) in elim absurd [ ]
]
