-- ===== src/Worker/Broker/Participants.antt =====
-- Who takes part in what (src/worker/broker.ts).
use serial_broker.Prelude.{
  ℕ, suc, ◌+◌, ◌≤◌, ◌<◌, Bool, true, false, not, ◌&&◌, ◌||◌, Option, none, some, List, [], ◌∷◌,
  ◌++◌, ◌==◌, ◌≡◌, inl, inr, refl, sym, ap, ◌∙◌, arith, if◌then◌else◌, leb, length, Table, lookup,
  insert, lookup-insert, Bool-cases, by_if, by_option, ==_iff, subst,
}
use serial_broker.Worker.Broker.{
  Broker, has, add, delete, add_each, is_empty, leave, join, join_each, take_part,
  max_configurations,
}

abbrev pub IsFresh : ℕ → Table (List ℕ) → Type 0
IsFresh k [] = Unit
IsFresh k ((j, v) ∷ m) = (j == k ≡ false) × IsFresh k m

abbrev pub IsDistinct : Table (List ℕ) → Type 0
IsDistinct [] = Unit
IsDistinct ((k, v) ∷ m) = IsFresh k m × IsDistinct m

-- The client takes part in the configuration.
pub is_participant : ℕ → ℕ → Table (List ℕ) → Bool
unfolding has
is_participant client name m = elim (lookup name m) [
  | none ↦ false
  | some participants ↦ has client participants
]

has-append : (x y : ℕ) (ys : List ℕ) → has x (ys ++ y ∷ []) ≡ y == x || has x ys
unfolding has
has-append x y [] = ground arith
has-append x y (z ∷ ys) = ground (arith, has-append x y ys)

pub has-add : (x y : ℕ) (ys : List ℕ) → has x (add y ys) ≡ y == x || has x ys
unfolding add
has-add x y ys = ground (arith, has-append x y ys)

has-delete : (x y : ℕ) (ys : List ℕ) → has x (delete y ys) ≡ (if y == x then false else has x ys)
unfolding has delete
has-delete x y [] = ground arith
has-delete x y (z ∷ ys) = ground (arith, has-delete x y ys)

has-add_each : (x : ℕ) (xs set : List ℕ) → has x (add_each xs set) ≡ has x xs || has x set
unfolding has add_each
has-add_each x [] set = refl
has-add_each x (y ∷ xs) set = ground (arith, has-add_each x xs (add y set), has-add x y set)

IsFresh-leave :
    (k : ℕ) (names : List ℕ) (client : ℕ) (m : Table (List ℕ))
    → IsFresh k m
    → IsFresh k (leave names client m)
unfolding leave
IsFresh-leave k names client [] h = tt
IsFresh-leave k names client ((j, v) ∷ m) h =
    by_if (IsFresh k) (has j names) _ _ (λ named. (h.0, IsFresh-leave k names client m h.1))
      (λ other.
        by_if (IsFresh k) (is_empty (delete client v)) _ _
          (λ gone. IsFresh-leave k names client m h.1)
          (λ left. (h.0, IsFresh-leave k names client m h.1)))

IsFresh-insert :
    (k j : ℕ) (v : List ℕ) (m : Table (List ℕ))
    → j == k ≡ false
    → IsFresh k m
    → IsFresh k (insert j v m)
unfolding insert
IsFresh-insert k j v [] d h = (d, tt)
IsFresh-insert k j v ((i, w) ∷ m) d h =
    by_if (IsFresh k) (i == j) _ _ (λ same. (h.0, h.1))
      (λ other. (h.0, IsFresh-insert k j v m d h.1))

IsDistinct-leave :
    (names : List ℕ) (client : ℕ) (m : Table (List ℕ))
    → IsDistinct m
    → IsDistinct (leave names client m)
unfolding leave
IsDistinct-leave names client [] h = tt
IsDistinct-leave names client ((j, v) ∷ m) h =
    let f = IsFresh-leave j names client m h.0 in
    let d = IsDistinct-leave names client m h.1 in
    by_if IsDistinct (has j names) _ _ (λ named. (f, d))
      (λ other. by_if IsDistinct (is_empty (delete client v)) _ _ (λ gone. d) (λ left. (f, d)))

IsDistinct-insert :
    (j : ℕ) (v : List ℕ) (m : Table (List ℕ)) → IsDistinct m → IsDistinct (insert j v m)
unfolding insert
IsDistinct-insert j v [] h = (tt, tt)
IsDistinct-insert j v ((i, w) ∷ m) h =
    by_if IsDistinct (i == j) _ _ (λ same. (h.0, h.1))
      (λ other. (IsFresh-insert i j v m (ground (arith, other)) h.0, IsDistinct-insert j v m h.1))

lookup-IsFresh : (k : ℕ) (m : Table (List ℕ)) → IsFresh k m → lookup k m ≡ none
unfolding lookup
lookup-IsFresh k [] h = refl
lookup-IsFresh k ((i, v) ∷ m) h = rw h.0 (lookup-IsFresh k m h.1)

has-is_empty : (x : ℕ) (xs : List ℕ) → is_empty xs ≡ true → has x xs ≡ false
unfolding has
has-is_empty x [] h = refl
has-is_empty x (y ∷ xs) h = ground (arith, h)

is_participant-cons :
    (c n j : ℕ) (v : List ℕ) (m : Table (List ℕ))
    → is_participant c n ((j, v) ∷ m) ≡ (if j == n then has c v else is_participant c n m)
unfolding is_participant lookup
is_participant-cons c n j v m = ground arith

is_participant-IsFresh : (c n : ℕ) (m : Table (List ℕ)) → IsFresh n m → is_participant c n m ≡ false
unfolding is_participant
is_participant-IsFresh c n m h = rw (lookup-IsFresh n m h, is_participant) refl

is_participant_same :
    (c n j : ℕ) (m : Table (List ℕ)) → IsFresh j m → j == n ≡ true → is_participant c n m ≡ false
is_participant_same c n j m h same =
    is_participant-IsFresh c n m (subst (λ k. IsFresh k m) ((==_iff j n).0 same) h)

has_same : (n j : ℕ) (names : List ℕ) → j == n ≡ true → has j names ≡ has n names
has_same n j names same = ap (λ k. has k names) ((==_iff j n).0 same)

is_participant-leave :
    (c : ℕ) (n : ℕ) (names : List ℕ) (client : ℕ) (m : Table (List ℕ))
    → IsDistinct m
    → is_participant c n (leave names client m)
      ≡ is_participant c n m && (has n names || not (client == c))
unfolding leave
is_participant-leave c n names client [] h =
    let nobody = is_participant-IsFresh c n [] tt in ground (arith, nobody)
is_participant-leave c n names client ((j, v) ∷ m) h =
    let ih = is_participant-leave c n names client m h.1 in
    let before = is_participant-cons c n j v m in
    let f = IsFresh-leave j names client m h.0 in
    let gone_after = is_participant_same c n j (leave names client m) f in
    let gone_before = is_participant_same c n j m h.0 in
    let kept = is_participant-cons c n j v (leave names client m) in
    let less = is_participant-cons c n j (delete client v) (leave names client m) in
    let same_name = has_same n j names in
    by_if
      (λ t.
        is_participant c n t
        ≡ is_participant c n ((j, v) ∷ m) && (has n names || not (client == c)))
      (has j names) _ _
      (λ named. ground (arith, named, ih, before, gone_after, gone_before, kept, same_name))
      (λ other.
        by_if
          (λ t.
            is_participant c n t
            ≡ is_participant c n ((j, v) ∷ m) && (has n names || not (client == c)))
          (is_empty (delete client v)) _ _
          (λ gone. ground (
            arith,
            other,
            ih,
            before,
            gone_after,
            gone_before,
            same_name,
            has-delete c client v,
            has-is_empty c (delete client v) gone,
          ))
          (λ left. ground (
            arith,
            other,
            ih,
            before,
            gone_after,
            gone_before,
            same_name,
            less,
            has-delete c client v,
          )))

is_participant-none :
    (c name : ℕ) (m : Table (List ℕ)) → lookup name m ≡ none → false ≡ is_participant c name m
unfolding is_participant
is_participant-none c name m new = rw (new, is_participant) refl

is_participant-some :
    (c name : ℕ) (ps : List ℕ) (m : Table (List ℕ))
    → lookup name m ≡ some ps
    → has c ps ≡ is_participant c name m
unfolding is_participant
is_participant-some c name ps m found = rw (found, is_participant) refl

lookup_participant :
    (c n : ℕ) (m : Table (List ℕ)) (o : Option (List ℕ))
    → lookup n m ≡ o
    → is_participant c n m ≡ (elim o [ none ↦ false | some participants ↦ has c participants ])
unfolding is_participant
lookup_participant c n m o e = rw (e, is_participant) refl

is_participant_put :
    (c n k : ℕ) (v : List ℕ) (m : Table (List ℕ))
    → is_participant c n (insert k v m) ≡ (if k == n then has c v else is_participant c n m)
is_participant_put c n k v m = elim (Bool-cases (k == n)) [
  | inl same ↦
      rw same
        (lookup_participant c n (insert k v m) (some v) (lookup-insert k n v m ∙ rw same refl))
  | inr other ↦ rw other (
      lookup_participant c n (insert k v m) (lookup n m) (lookup-insert k n v m ∙ rw other refl)
      ∙ sym (lookup_participant c n m (lookup n m) refl))
]

is_participant-insert :
    (c n client name : ℕ) (ps : List ℕ) (m : Table (List ℕ)) {b : Bool}
    → has c ps ≡ b
    → b ≡ is_participant c name m
    → is_participant c n (insert name (add client ps) m)
      ≡ (client == c && name == n) || is_participant c n m
is_participant-insert c n client name ps m before there =
    let put = is_participant_put c n name (add client ps) m in
    let more = has-add c client ps in
    elim (Bool-cases (name == n)) [
      | inl same ↦
          let at_n = ap (λ k. is_participant c k m) ((==_iff name n).0 same) in
          ground (arith, put, more, before, there, at_n, same)
      | inr other ↦ ground (arith, put, other)
    ]

is_participant-join :
    (c n client name : ℕ) (m : Table (List ℕ))
    → length m < max_configurations
    → is_participant c n (join client name m) ≡ (client == c && name == n) || is_participant c n m
unfolding join is_participant
is_participant-join c n client name m room =
    let full : leb max_configurations (length m) ≡ false = ground arith in
    let self = has-add c client [] in
    let nobody = has-is_empty c [] refl in
    by_option (λ t. is_participant c n t ≡ (client == c && name == n) || is_participant c n m)
      (lookup name m) _ _
      (λ new.
        by_if (λ t. is_participant c n t ≡ (client == c && name == n) || is_participant c n m)
          (leb max_configurations (length m)) _ _ (λ no_room. ground (arith, no_room, room))
          (λ fits.
            is_participant-insert c n client name [] m nobody (is_participant-none c name m new)))
      (λ ps found.
        is_participant-insert c n client name ps m refl (is_participant-some c name ps m found))

length-leave :
    (names : List ℕ) (client : ℕ) (m : Table (List ℕ)) → length (leave names client m) ≤ length m
unfolding leave
length-leave names client [] = omega arith
length-leave names client ((j, v) ∷ m) = ground (arith, length-leave names client m)

length-insert : (k : ℕ) (v : List ℕ) (m : Table (List ℕ)) → length (insert k v m) ≤ suc (length m)
unfolding insert
length-insert k v [] = omega arith
length-insert k v ((i, w) ∷ m) = ground (arith, length-insert k v m)

abbrev HasOneMore : Table (List ℕ) → Table (List ℕ) → Type 0
HasOneMore m t = length t ≤ suc (length m)

length-join : (client name : ℕ) (m : Table (List ℕ)) → length (join client name m) ≤ suc (length m)
unfolding join
length-join client name m =
    by_option (HasOneMore m) (lookup name m) _ _
      (λ new.
        by_if (HasOneMore m) (leb max_configurations (length m)) m _ (λ full. omega arith)
          (λ room. length-insert name (add client []) m))
      (λ ps found. length-insert name (add client ps) m)

is_participant-join_each :
    (c n client : ℕ) (names : List ℕ) (m : Table (List ℕ))
    → length m + length names ≤ max_configurations
    → is_participant c n (join_each client names m)
      ≡ (client == c && has n names) || is_participant c n m
unfolding join_each has
is_participant-join_each c n client [] m room = ground arith
is_participant-join_each c n client (name ∷ names) m room =
    let more = length-join client name m in
    let ih =
      is_participant-join_each c n client names (join client name m) (omega (arith, more, room)) in
    let one = is_participant-join c n client name m (omega (arith, room)) in ground (arith, ih, one)

-- `#takePart` makes the client a participant of exactly the configurations it names, and leaves
-- every other client where it was, if there is room for all of them.
pub is_participant-take_part :
    (c n client : ℕ) (names : List ℕ) (b : Broker)
    → IsDistinct b.configurations
    → length b.configurations + length (add_each names []) ≤ max_configurations
    → is_participant c n (take_part client names b).configurations
      ≡ (if client == c then has n names else is_participant c n b.configurations)
unfolding take_part
is_participant-take_part c n client names b distinct room =
    let named : List ℕ = add_each names [] in
    let left = is_participant-leave c n named client b.configurations distinct in
    let short = length-leave named client b.configurations in
    let joined =
      is_participant-join_each c n client named (leave named client b.configurations)
        (omega (arith, short, room)) in
    let set = has-add_each n names [] in
    let nobody = has-is_empty n [] refl in ground (arith, left, joined, set, nobody)
