-- ===== src/Owner/Unanswered/Bounds.antt =====
-- How much waits at one port (src/owner/port-supervisor.ts).
use serial_broker.Prelude.{
  ℕ, suc, ◌+◌, ◌≤◌, ◌<◌, false, ◌==◌, Option, none, some, List, [], ◌∷◌, ◌≡◌, refl, sym, ◌∙◌, ap,
  subst, arith, if◌then◌else◌, length, Table, lookup, insert, remove, lookup-insert, lookup-remove,
  by_if,
}
use serial_broker.Owner.Unanswered.{
  max_waiting_writes, max_waiting_write_bytes, Unanswered, none_unanswered, hand, is_refused,
  Request, arrives, answers, answers_one, step, run,
}

-- The sum of the sizes.
abbrev pub total : Table ℕ → ℕ
total [] = 0
total ((k, n) ∷ m) = n + total m

-- No key is there twice, and each is below the next one.
abbrev IsKeyed : ℕ → Table ℕ → Type 0
IsKeyed next [] = Unit
IsKeyed next ((k, n) ∷ m) = (lookup k m ≡ none) × (k < next) × IsKeyed next m

lookup_next : (next : ℕ) (m : Table ℕ) → IsKeyed next m → lookup next m ≡ none
unfolding lookup
lookup_next next [] h = refl
lookup_next next ((k, n) ∷ m) (fresh, below, h) = ground (arith, lookup_next next m h, below)

IsKeyed-suc : (next : ℕ) (m : Table ℕ) → IsKeyed next m → IsKeyed (suc next) m
IsKeyed-suc next [] h = tt
IsKeyed-suc next ((k, n) ∷ m) (fresh, below, h) =
    (fresh, omega (arith, below), IsKeyed-suc next m h)

-- A new key is added at the end.
insert_next :
    (next size : ℕ) (m : Table ℕ)
    → IsKeyed next m
    → (total (insert next size m) ≡ total m + size)
      × (length (insert next size m) ≡ suc (length m))
      × IsKeyed (suc next) (insert next size m)
unfolding lookup insert
insert_next next size [] h = (omega arith, refl, (refl, omega arith, tt))
insert_next next size ((k, n) ∷ m) (fresh, below, h) =
    let rest = insert_next next size m h in
    let other : k == next ≡ false = ground (arith, below) in
    let other' : next == k ≡ false = ground (arith, below) in
    let still : lookup k (insert next size m) ≡ none =
      lookup-insert next k size m ∙ rw other' fresh in
    by_if
      (λ (t : Table ℕ).
        (total t ≡ n + total m + size) × (length t ≡ suc (suc (length m))) × IsKeyed (suc next) t)
      (k == next) _ _ (λ same. cc)
      (λ new. (omega (arith, rest.0), ap suc rest.1, (still, omega (arith, below), rest.2)))

-- A key that is there is taken out with its size.
remove_absent : (k : ℕ) (m : Table ℕ) → lookup k m ≡ none → remove k m ≡ m
unfolding lookup remove
remove_absent k [] h = refl
remove_absent k ((j, n) ∷ m) h = ground (arith, remove_absent k m, h)

remove_one :
    (next k size : ℕ) (m : Table ℕ)
    → IsKeyed next m
    → lookup k m ≡ some size
    → (total (remove k m) + size ≡ total m)
      × (suc (length (remove k m)) ≡ length m)
      × IsKeyed next (remove k m)
unfolding lookup remove
remove_one next k size [] h e = cc
remove_one next k size ((j, n) ∷ m) (fresh, below, h) e =
    by_if
      (λ (t : Table ℕ).
        (total t + size ≡ n + total m) × (suc (length t) ≡ suc (length m)) × IsKeyed next t)
      (j == k) _ _
      (λ same.
        let is : j ≡ k = ground (arith, same) in
        let gone : remove k m ≡ m = remove_absent k m (subst (λ x. lookup x m ≡ none) is fresh) in
        let found : some n ≡ some size =
          sym (ap (λ b. if b then some n else lookup k m) same) ∙ e in
        let its : n ≡ size = cc in
        (
          omega (arith, ap total gone, its),
          ap (λ t. suc (length t)) gone,
          subst (IsKeyed next) (sym gone) h,
        ))
      (λ other.
        let later : lookup k m ≡ some size =
          sym (ap (λ b. if b then some n else lookup k m) other) ∙ e in
        let rest = remove_one next k size m h later in
        let still : lookup j (remove k m) ≡ none = lookup-remove k j m ∙ ground (arith, fresh) in
        (omega (arith, rest.0), ap suc rest.1, (still, below, rest.2)))

record Inv (u : Unanswered) : Type 0 where
  keyed : IsKeyed u.next_promise u.sizes
  counted : u.bytes ≡ total u.sizes
  few : length u.sizes ≤ max_waiting_writes
  small : u.bytes ≤ max_waiting_write_bytes

hand-Inv : (n : ℕ) (u : Unanswered) → Inv u → is_refused n u ≡ false → Inv (hand n u)
hand-Inv n u v fits =
    let added = insert_next u.next_promise n u.sizes v.keyed in
    let few : length u.sizes < max_waiting_writes = ground (arith, fits) in
    let small : u.bytes + n ≤ max_waiting_write_bytes = ground (arith, fits) in
    record {
      keyed = added.2;
      counted = omega (arith, added.0, v.counted);
      few = omega (arith, added.1, few);
      small = small;
    }

answers_one-Inv :
    (id : ℕ) (o : Option ℕ) (u : Unanswered)
    → Inv u
    → lookup id u.sizes ≡ o
    → Inv (answers_one id o u)
answers_one-Inv id none u v e = v
answers_one-Inv id (some n) u v e =
    let taken = remove_one u.next_promise id n u.sizes v.keyed e in
    record {
      keyed = taken.2;
      counted = omega (arith, taken.0, v.counted);
      few = omega (arith, taken.1, v.few);
      small = omega (arith, v.small);
    }

run-Inv : (rs : List Request) (u : Unanswered) → Inv u → Inv (run rs u)
unfolding run step
run-Inv [] u v = v
run-Inv (arrives n ∷ rs) u v =
    run-Inv rs _ (by_if Inv (is_refused n u) _ _ (λ refused. v) (λ fits. hand-Inv n u v fits))
run-Inv (answers id ∷ rs) u v = run-Inv rs _ (answers_one-Inv id (lookup id u.sizes) u v refl)

-- Where every write is handed over only if it is not refused: whatever arrives and is answered, in any
-- order, at most MAX_WAITING_WRITES writes wait at the port, with at most MAX_WAITING_WRITE_BYTES bytes
-- together, and the count of the bytes is the sum of the sizes of those that wait.
pub run-bounded :
    (rs : List Request)
    → let u = run rs none_unanswered in
      (length u.sizes ≤ max_waiting_writes)
      × (u.bytes ≤ max_waiting_write_bytes)
      × (u.bytes ≡ total u.sizes)
run-bounded rs =
    let v =
      run-Inv rs none_unanswered
        (record { keyed = tt; counted = refl; few = omega arith; small = omega arith }) in
    (v.few, v.small, v.counted)
