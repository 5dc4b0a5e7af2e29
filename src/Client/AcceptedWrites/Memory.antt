-- ===== src/Client/AcceptedWrites/Memory.antt =====
-- The finished writes of src/client/accepted-writes.ts and the list of all outcomes.
use serial_broker.Prelude.{
  ℕ, true, false, Option, none, some, List, [], ◌∷◌, ◌++◌, ◌≡◌, ◌≤◌, ◌⊎◌, refl, ap, ◌∙◌, inl, inr,
  if◌then◌else◌, arith, Bool-cases, Option-cases, subst, Text, text_eq, text_eq_iff, ltb, length,
  length-append, append_assoc, append-nil,
}
use serial_broker.Core.Errors.{SerialBrokerError}
use serial_broker.Client.AcceptedWrites.{
  AcceptedWrites, new, key_of, has, get, put, evict, admit_key, admit, finish_key, finish, Call,
  admits, finishes, step, run, is_not_begun,
}
use serial_broker.Client.AcceptedWrites.InFlight.{has-add, has-delete}

-- The last `n` elements.
abbrev pub last_n {ℓ} : {A : Type ℓ} → ℕ → List A → List A
last_n n [] = []
last_n n (x ∷ xs) = let rest = last_n n xs in if ltb n (length (x ∷ xs)) then rest else x ∷ xs

-- The outcomes that count as written or failed, oldest first.
abbrev pub outcomes : List Call → List (Text × Option SerialBrokerError)
outcomes [] = []
outcomes (admits origin r ∷ cs) = outcomes cs
outcomes (finishes origin r e ∷ cs) =
    let rest = outcomes cs in if is_not_begun e then rest else (key_of origin r, e) ∷ rest

-- `finish` is called for writes in progress only, as the code does once `admit` has answered "new".
abbrev pub IsUsed : List Call → AcceptedWrites → Type 0
IsUsed [] s = Unit
IsUsed (admits origin r ∷ cs) s = IsUsed cs (step (admits origin r) s)
IsUsed (finishes origin r e ∷ cs) s =
    (has (key_of origin r) s.in_progress ≡ true) × IsUsed cs (step (finishes origin r e) s)

last_n_all : {A : Type 0} (n : ℕ) (xs : List A) → length xs ≤ n → last_n n xs ≡ xs
last_n_all n [] h = refl
last_n_all n (x ∷ xs) h = ground arith

evict-last_n :
    {A : Type 0} (n : ℕ) (xs : List A) (y : A)
    → evict n (last_n n xs ++ y ∷ []) ≡ last_n n (xs ++ y ∷ [])
evict-last_n n [] y = ground arith
evict-last_n n (x ∷ xs) y = ground (
  arith,
  evict-last_n n xs y,
  length-append xs (y ∷ []),
  last_n_all n (xs ++ y ∷ []),
  last_n_all n xs,
)

put_absent :
    {V : Type 0} (k : Text) (v : V) (m : List (Text × V))
    → get k m ≡ none
    → put k v m ≡ m ++ (k, v) ∷ []
unfolding get put
put_absent k v [] e = refl
put_absent k v ((j, w) ∷ m) e = ground (arith, put_absent k v m)

pub get-put :
    {V : Type 0} (k j : Text) (v : V) (m : List (Text × V))
    → get j (put k v m) ≡ (if text_eq k j then some v else get j m)
unfolding get put
get-put k j v [] = refl
get-put k j v ((i, w) ∷ m) =
    ground (arith, get-put k j v m, text_eq_iff i k, text_eq_iff i j, text_eq_iff k j)

get-evict :
    {V : Type 0} (n : ℕ) (j : Text) (m : List (Text × V))
    → get j m ≡ none
    → get j (evict n m) ≡ none
unfolding get
get-evict n j [] e = refl
get-evict n j ((i, w) ∷ m) e = ground arith

-- A write in progress has no remembered outcome.
abbrev AreApart : AcceptedWrites → Type 0
AreApart s = (k : Text) → (has k s.in_progress ≡ false) ⊎ (get k s.finished ≡ none)

admit_key-AreApart : (k : Text) (s : AcceptedWrites) → AreApart s → AreApart (admit_key k s).0
unfolding admit_key
admit_key-AreApart k s apart = elim (Bool-cases (has k s.in_progress)) [
  | inl there ↦ rw (there, admit_key) apart
  | inr absent ↦ elim (Option-cases (get k s.finished)) [
    | inr (e, known) ↦ rw (absent, known, admit_key) apart
    | inl unknown ↦
        rw (absent, unknown, admit_key)
          λ j. elim (Bool-cases (text_eq k j)) [
            | inl same ↦
                inr (subst (λ i. get i s.finished ≡ none) ((text_eq_iff k j).0 same) unknown)
            | inr other ↦ rw (has-add k j s.in_progress) (rw other (apart j))
          ]
  ]
]

-- What `admit` leaves alone.
admit_key_keeps :
    (k : Text) (s : AcceptedWrites)
    → ((admit_key k s).0.finished ≡ s.finished) × ((admit_key k s).0.max_finished ≡ s.max_finished)
unfolding admit_key
admit_key_keeps k s = elim (Bool-cases (has k s.in_progress)) [
  | inl there ↦ rw (there, admit_key) (refl, refl)
  | inr absent ↦ elim (Option-cases (get k s.finished)) [
    | inr (e, known) ↦ rw (absent, known, admit_key) (refl, refl)
    | inl unknown ↦ rw (absent, unknown, admit_key) (refl, refl)
  ]
]

finish_key-AreApart :
    (k : Text) (e : Option SerialBrokerError) (s : AcceptedWrites)
    → AreApart s
    → AreApart (finish_key k e s)
unfolding finish_key
finish_key-AreApart k e s apart j = elim (Bool-cases (is_not_begun e)) [
  | inl back ↦ rw back (
      rw (has-delete k j s.in_progress) (elim (Bool-cases (text_eq k j)) [
        | inl same ↦ rw same (inl refl)
        | inr other ↦ rw other (apart j)
      ]))
  | inr done ↦ rw done (
      rw (has-delete k j s.in_progress) (elim (Bool-cases (text_eq k j)) [
        | inl same ↦ rw same (inl refl)
        | inr other ↦ rw other (elim (apart j) [
          | inl out ↦ inl out
          | inr unknown ↦ inr (
              get-evict s.max_finished j (put k e s.finished)
                (get-put k j e s.finished ∙ rw other unknown))
        ])
      ]))
]

-- The outcome of one `finish`, as `outcomes` lists it.
finish_key-last_n :
    (k : Text) (e : Option SerialBrokerError) (s : AcceptedWrites)
    (before after : List (Text × Option SerialBrokerError))
    → get k s.finished ≡ none
    → s.finished ≡ last_n s.max_finished before
    → (all : List (Text × Option SerialBrokerError)) × ((finish_key k e s).finished
        ≡ last_n s.max_finished all)
      × (all ++ after ≡ before ++ (if is_not_begun e then after else (k, e) ∷ after))
unfolding finish_key
finish_key-last_n k e s before after unknown known = elim (Bool-cases (is_not_begun e)) [
  | inl back ↦ (before, rw back known, rw back)
  | inr done ↦ (
    before ++ (k, e) ∷ [],
    rw done (
        ap (evict s.max_finished) (put_absent k e s.finished unknown)
        ∙ rw known (evict-last_n s.max_finished before (k, e))),
    rw done (append_assoc before ((k, e) ∷ []) after),
  )
]

finish_key_keeps :
    (k : Text) (e : Option SerialBrokerError) (s : AcceptedWrites)
    → (finish_key k e s).max_finished ≡ s.max_finished
unfolding finish_key
finish_key_keeps k e s = ground arith

run_from-finished :
    (cs : List Call) (s : AcceptedWrites) (before : List (Text × Option SerialBrokerError))
    → AreApart s
    → s.finished ≡ last_n s.max_finished before
    → IsUsed cs s
    → (run cs s).finished ≡ last_n s.max_finished (before ++ outcomes cs)
unfolding run step admit finish
run_from-finished [] s before apart known used = rw (append-nil before) known
run_from-finished (admits origin r ∷ cs) s before apart known used =
    let k = key_of origin r in
    let (same, most) = admit_key_keeps k s in
    run_from-finished cs (admit_key k s).0 before (admit_key-AreApart k s apart)
      (rw (same, most) known) used
    ∙ rw most
run_from-finished (finishes origin r e ∷ cs) s before apart known (held, used) =
    let k = key_of origin r in
    let unknown : get k s.finished ≡ none = elim (apart k) [ inl out ↦ cc | inr u ↦ u ] in
    let (all, kept, split) = finish_key-last_n k e s before (outcomes cs) unknown known in
    run_from-finished cs (finish_key k e s) all (finish_key-AreApart k e s apart)
      (rw (finish_key_keeps k e s) kept) used
    ∙ rw (finish_key_keeps k e s, split)

-- Where `finish` is called for writes in progress only, the remembered outcomes are the last
-- `maxFinished` of all outcomes other than `NOT_CONNECTED`, in order, whatever else was admitted.
pub run-finished :
    (max_finished : ℕ) (cs : List Call)
    → IsUsed cs (new max_finished)
    → (run cs (new max_finished)).finished ≡ last_n max_finished (outcomes cs)
unfolding has
run-finished max_finished cs used =
    run_from-finished cs (new max_finished) [] (λ k. inl refl) refl used
