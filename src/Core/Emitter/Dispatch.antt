-- ===== src/Core/Emitter/Dispatch.antt =====
-- Who hears an event, whatever the listeners do.
use serial_broker.Prelude.{
  ℕ, Bool, true, List, [], ◌∷◌, ◌≡◌, refl, ap, ◌∙◌, arith, Table, lookup, keys, is_some, by_option,
  All,
}
use serial_broker.Core.Emitter.{
  EventName, EventEmitter, listeners_of, emit_each, emit, call_listener,
}

-- The first list is the second one with some elements left out.
pub data IsSublist : List ℕ → List ℕ → Type 0 where
  done : IsSublist [] []
  skips : (x : ℕ) (xs ys : List ℕ) → IsSublist xs ys → IsSublist xs (x ∷ ys)
  keeps : (x : ℕ) (xs ys : List ℕ) → IsSublist xs ys → IsSublist (x ∷ xs) (x ∷ ys)

-- The listener is in the table.
abbrev IsListed : Table ℕ → ℕ → Type 0
IsListed m l = is_some (lookup l m) ≡ true

IsListed-cons :
    (k v : ℕ) (m : Table ℕ) (ls : List ℕ) → All (IsListed m) ls → All (IsListed ((k, v) ∷ m)) ls
unfolding lookup
IsListed-cons k v m [] h = tt
IsListed-cons k v m (l ∷ ls) h = (ground (arith, h.0), IsListed-cons k v m ls h.1)

keys-IsListed : (m : Table ℕ) → All (IsListed m) (keys m)
unfolding lookup
keys-IsListed [] = tt
keys-IsListed ((k, v) ∷ m) = (ground arith, IsListed-cons k v m (keys m) (keys-IsListed m))

module _ (react : ℕ → EventEmitter → EventEmitter × Bool)
    (report : EventEmitter → EventEmitter) where
  emit_each-IsSublist :
      (event : EventName) (ls : List ℕ) (s : EventEmitter)
      → IsSublist (emit_each react report event ls s).1 ls
  unfolding emit_each
  emit_each-IsSublist event [] s = done
  emit_each-IsSublist event (l ∷ ls) s =
      by_option (λ (r : EventEmitter × List ℕ). IsSublist r.1 (l ∷ ls))
        (lookup l (listeners_of event s)) _ _
        (λ gone. skips l _ ls (emit_each-IsSublist event ls s))
        (λ registration found.
          keeps l _ ls (emit_each-IsSublist event ls (call_listener react report event l s)))

  -- Whatever the listeners do to the emitter when they are called, the dispatch calls only listeners
  -- that were registered when it began, in the order of their registration.
  pub emit-IsSublist :
      (event : EventName) (s : EventEmitter)
      → IsSublist (emit react report event s).1 (keys (listeners_of event s))
  unfolding emit
  emit-IsSublist event s = emit_each-IsSublist event (keys (listeners_of event s)) s

  module _ (quiet : (l : ℕ) (s : EventEmitter) → (react l s).0 ≡ s)
      (silent : (s : EventEmitter) → report s ≡ s) where
    call_listener_quiet :
        (event : EventName) (l : ℕ) (s : EventEmitter) → call_listener react report event l s ≡ s
    call_listener_quiet event l s =
        let same = quiet l s in let told = silent (react l s).0 in ground (arith, same, told)

    emit_each_quiet :
        (event : EventName) (ls : List ℕ) (s : EventEmitter)
        → All (IsListed (listeners_of event s)) ls
        → emit_each react report event ls s ≡ (s, ls)
    unfolding emit_each
    emit_each_quiet event [] s h = refl
    emit_each_quiet event (l ∷ ls) s h =
        by_option (λ (r : EventEmitter × List ℕ). r ≡ (s, l ∷ ls)) (lookup l (listeners_of event s))
          _ _ (λ gone. ground (arith, gone, h.0))
          (λ registration found.
            ap
              (λ (t : EventEmitter).
                ((emit_each react report event ls t).0, l ∷ (emit_each react report event ls t).1))
              (call_listener_quiet event l s)
            ∙ ap (λ (r : EventEmitter × List ℕ). (r.0, l ∷ r.1)) (emit_each_quiet event ls s h.1))

    -- Where neither the listeners nor the reporting of what they throw changes the emitter, every
    -- listener of the event is called, in order, whichever of them throw.
    pub emit_isolated :
        (event : EventName) (s : EventEmitter)
        → emit react report event s ≡ (s, keys (listeners_of event s))
    unfolding emit
    emit_isolated event s =
        emit_each_quiet event (keys (listeners_of event s)) s (keys-IsListed (listeners_of event s))
