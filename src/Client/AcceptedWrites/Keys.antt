-- ===== src/Client/AcceptedWrites/Keys.antt =====
-- When two requests have the same key.
use serial_broker.Prelude.{[], ◌∷◌, ◌++◌, ◌≡◌, ◌≢◌, refl, Text, All, subst}
use serial_broker.Client.AcceptedWrites.{key_of}

abbrev pub NoSpace : Text → Type 0
NoSpace = All (λ c. c ≢ 32)

not-NoSpace : (o r : Text) → ¬ NoSpace (o ++ (32 ∷ r))
not-NoSpace [] r h = h.0 refl
not-NoSpace (c ∷ o) r h = not-NoSpace o r h.1

-- The key tells a request apart from every other if neither of its two identifiers contains a
-- space, whatever the identifiers of the other contain.
pub key_of-injective :
    (o r o' r' : Text) → NoSpace o → NoSpace r → key_of o r ≡ key_of o' r' → (o ≡ o') × (r ≡ r')
unfolding key_of
key_of-injective [] r [] r' ho hr e = (refl, cc)
key_of-injective [] r (d ∷ o') r' ho hr e =
    let rest : r ≡ o' ++ (32 ∷ r') = cc in absurd (not-NoSpace o' r' (subst NoSpace rest hr))
key_of-injective (c ∷ o) r [] r' ho hr e = absurd (ho.0 (cc))
key_of-injective (c ∷ o) r (d ∷ o') r' ho hr e =
    let rest : o ++ (32 ∷ r) ≡ o' ++ (32 ∷ r') = cc in
    let (same_o, same_r) = key_of-injective o r o' r' ho.1 hr rest in (cc, same_r)
