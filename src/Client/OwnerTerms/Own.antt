-- ===== src/Client/OwnerTerms/Own.antt =====
-- The tab's own term and `#remember` of src/client/owner-terms.ts.
use serial_broker.Prelude.{
  ℕ, zero, suc, ◌≤◌, ◌<◌, Bool, true, false, not, none, some, List, [], ◌∷◌, ◌++◌, ◌==◌, ◌≡◌, inl,
  inr, refl, ap, ◌∙◌, subst, arith, leb, length, is_value, Table, lookup, insert, values,
  lookup-insert, lookup-remove, ==_iff, ==_refl, Bool-cases, Option-cases,
}
use serial_broker.Client.OwnerTerms.{
  KnownTerm, OwnerTerms, is_checking, is_live, is_over, first_matching, oldest_to_forget, forget,
  trim, remember, store, max_term_flood,
}
use serial_broker.Client.OwnerTerms.Bounds.{
  IsIndexed, only_current, first_matching-none, lookup-first_matching, length-insert_known,
  length-insert, length-remove, oldest_to_forget-some,
}
use serial_broker.Client.OwnerTerms.Current.{
  Inv, Entries, IsBelieved, forgettable, trim-next, trim-stop,
}

trim_fits : (n : ℕ) (s : OwnerTerms) → length s.terms ≤ max_term_flood → trim n s ≡ s
unfolding trim
trim_fits zero s h = refl
trim_fits (suc n) s h = trim-stop n s (ground (arith, h))

-- A new key goes to the end.
values-insert :
    (k : ℕ) (e : KnownTerm) (m : Table KnownTerm)
    → lookup k m ≡ none
    → values (insert k e m) ≡ values m ++ e ∷ []
unfolding insert lookup
values-insert k e [] new = refl
values-insert k e ((i, f) ∷ m) new = elim (Bool-cases (i == k)) [
  | inl same ↦ ground (arith, new, same)
  | inr other ↦ rw other (ap (λ r. f ∷ r) (values-insert k e m (ground (arith, new, other))))
]

first_matching-append :
    (test : KnownTerm → Bool) (xs ys : List KnownTerm) (f : KnownTerm)
    → first_matching test xs ≡ some f
    → first_matching test (xs ++ ys) ≡ some f
first_matching-append test [] ys f h = ground (arith, h)
first_matching-append test (x ∷ xs) ys f h = elim (Bool-cases (test x)) [
  | inl holds ↦ rw holds (ground (arith, h, holds))
  | inr fails ↦ rw fails (first_matching-append test xs ys f (ground (arith, h, fails)))
]

module _ (e : KnownTerm) (s : OwnerTerms) (b : IsBelieved e) (i : IsIndexed s.terms)
    (new : lookup e.claim.term s.terms ≡ none) (two : 1 < length s.terms) where
  -- The oldest term that is not the current one stands before the new one.
  last_choice :
      (o : KnownTerm)
      → first_matching (λ e. not (is_value s.current e.claim.term)) (values (store e s).terms)
        ≡ some o
      → o.claim.term == e.claim.term ≡ false
  last_choice o found =
      elim (Option-cases
        (first_matching (λ e. not (is_value s.current e.claim.term)) (values s.terms))) [
          | inl nothing ↦
              let short =
                only_current s.current s.terms i (first_matching-none _ s.terms nothing) in
              let absurd : ⊥ = omega (arith, short, two) in elim absurd [ ]
          | inr (f, older) ↦
              let r = lookup-first_matching _ s.terms f i older in
              let same : first_matching (λ e. not (is_value s.current e.claim.term))
                    (values (store e s).terms)
                  ≡ some f =
                ap (first_matching (λ e. not (is_value s.current e.claim.term)))
                  (values-insert e.claim.term e s.terms new)
                ∙ first_matching-append _ (values s.terms) (e ∷ []) f older in
              let f≡o : f ≡ o = ground (arith, same, found) in
              elim (Bool-cases (o.claim.term == e.claim.term)) [
                | inr other ↦ other
                | inl clash ↦
                    let there : lookup e.claim.term s.terms ≡ some f =
                      subst (λ k. lookup k s.terms ≡ some f)
                        (ap (λ x. x.claim.term) f≡o ∙ (==_iff o.claim.term e.claim.term).0 clash)
                        r.0 in
                    ground (arith, there, new)
              ]
        ]

-- What `#remember` forgets to make room for a live term is another one.
oldest_is_other :
    (e : KnownTerm) (s : OwnerTerms) (o : KnownTerm)
    → IsBelieved e
    → Entries (store e s)
    → IsIndexed s.terms
    → lookup e.claim.term s.terms ≡ none
    → 1 < length s.terms
    → oldest_to_forget (store e s) ≡ some o
    → o.claim.term == e.claim.term ≡ false
unfolding oldest_to_forget
oldest_is_other e s o b v i new two found =
    let there = forgettable (store e s) o v found in
    let own : lookup e.claim.term (store e s).terms ≡ some e =
      lookup-insert e.claim.term e.claim.term e s.terms ∙ rw (==_refl e.claim.term) refl in
    elim (Bool-cases (o.claim.term == e.claim.term)) [
      | inr other ↦ other
      | inl clash ↦
          let o≡e : o ≡ e =
            let at_own : lookup e.claim.term (store e s).terms ≡ some o =
              subst (λ k. lookup k (store e s).terms ≡ some o)
                ((==_iff o.claim.term e.claim.term).0 clash) there.0 in
            ground (arith, at_own, own) in
          let o_live : is_live o.phase ≡ true = ap (λ x. is_live x.phase) o≡e ∙ b.0 in
          elim (Option-cases (first_matching (λ e. is_over e.phase) (values (store e s).terms))) [
            | inr (f, over) ↦
                let r =
                  lookup-first_matching (λ e. is_over e.phase) (store e s).terms o v.indexed
                    (ground (arith, found, over)) in
                ground (arith, r.1, o_live)
            | inl no_over ↦
                elim (Option-cases
                  (first_matching (λ e. is_checking e.phase) (values (store e s).terms))) [
                    | inr (f, check) ↦
                        let r =
                          lookup-first_matching (λ e. is_checking e.phase) (store e s).terms o
                            v.indexed (ground (arith, found, no_over, check)) in
                        ground (arith, r.1, o_live)
                    | inl no_check ↦
                        last_choice e s b i new two o (ground (arith, found, no_over, no_check))
                  ]
          ]
    ]

-- One term too many: one round of the loop, which forgets another term, is enough.
lookup-trim_over :
    (n : ℕ) (e : KnownTerm) (s : OwnerTerms)
    → IsBelieved e
    → Inv s
    → Entries (store e s)
    → lookup e.claim.term s.terms ≡ none
    → leb (length (store e s).terms) max_term_flood ≡ false
    → 0 < n
    → lookup e.claim.term (trim n (store e s)).terms ≡ some e
unfolding forget
lookup-trim_over zero e s b v stored new over pos = ground (arith, pos)
lookup-trim_over (suc n) e s b v stored new over pos =
    let more = length-insert e.claim.term e s.terms in
    let found = oldest_to_forget-some (store e s) stored.indexed (ground (arith, over)) in
    let o : KnownTerm = found.0 in
    let f = forgettable (store e s) o stored found.1 in
    let other =
      oldest_is_other e s o b stored v.entries.indexed new (ground (arith, over, more)) found.1 in
    let fewer = length-remove o.claim.term o (store e s).terms f.0 in
    ap (λ t. lookup e.claim.term t.terms)
      (trim-next n (store e s) o over found.1
        ∙ trim_fits n (forget o (store e s)) (omega (arith, fewer, more, v.bounded)))
    ∙ lookup-remove o.claim.term e.claim.term (store e s).terms
    ∙ rw other (lookup-insert e.claim.term e.claim.term e s.terms ∙ rw (==_refl e.claim.term) refl)

-- A live term that is remembered stays.
pub lookup-remember :
    (e : KnownTerm) (s : OwnerTerms)
    → IsBelieved e
    → Inv s
    → Entries (store e s)
    → lookup e.claim.term (remember e s).terms ≡ some e
unfolding remember forget
lookup-remember e s b v stored =
    let own : lookup e.claim.term (store e s).terms ≡ some e =
      lookup-insert e.claim.term e.claim.term e s.terms ∙ rw (==_refl e.claim.term) refl in
    elim (Bool-cases (leb (length (store e s).terms) max_term_flood)) [
      | inl fits ↦
          ap (λ t. lookup e.claim.term t.terms)
            (trim_fits (length (store e s).terms) (store e s) (ground (arith, fits)))
          ∙ own
      | inr over ↦ elim (Option-cases (lookup e.claim.term s.terms)) [
        | inr (f, known) ↦
            let same = length-insert_known e.claim.term e f s.terms known in
            ground (arith, same, over, v.bounded)
        | inl new ↦
            lookup-trim_over (length (store e s).terms) e s b v stored new over
              (ground (arith, over))
      ]
    ]
