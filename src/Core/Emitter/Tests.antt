-- ===== src/Core/Emitter/Tests.antt =====
-- Two listeners, the first of which throws, or takes the second one out.
use serial_broker.Prelude.{ℕ, false, [], ◌∷◌, ◌≡◌, refl, keys, ◌==◌, Bool, lookup, insert, remove}
use serial_broker.Core.Emitter.{
  on_receive, EventEmitter, listeners_of, emit, emit_each, remove_listener,
}
use serial_broker.Core.Emitter.Dispatch.{IsSublist, emit-IsSublist, emit_isolated}

abbrev two : EventEmitter
two = record { listeners = (0, (5, 0) ∷ (6, 1) ∷ []) ∷ []; next_registration = 2 }

-- The first listener takes the second one out.
abbrev takes_out : ℕ → EventEmitter → EventEmitter × Bool
takes_out l s = (remove_listener on_receive 6 s, false)

abbrev throws : ℕ → EventEmitter → EventEmitter × Bool
throws l s = (s, l == 5)

abbrev ignores : EventEmitter → EventEmitter
ignores s = s

hears_no_more : (emit takes_out ignores on_receive two).1 ≡ 5 ∷ []
unfolding emit emit_each listeners_of remove_listener lookup insert remove
hears_no_more = refl

emit-IsSublist_example :
    IsSublist (emit takes_out ignores on_receive two).1 (keys (listeners_of on_receive two))
emit-IsSublist_example = emit-IsSublist takes_out ignores on_receive two

emit_isolated_example :
    emit throws ignores on_receive two ≡ (two, keys (listeners_of on_receive two))
emit_isolated_example = emit_isolated throws ignores (λ l s. refl) (λ s. refl) on_receive two
