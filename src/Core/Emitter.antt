-- ===== src/Core/Emitter.antt =====
-- src/core/emitter.ts: `EventEmitter`, the event dispatch of one configuration. Listeners and registration
-- objects are opaque: numbers. What a listener does when it is called is a parameter: it may change
-- the emitter in any way, as code that subscribes, unsubscribes or emits within does, and may throw.
-- Payloads are left out.
pub mod Dispatch
mod Tests
use serial_broker.Prelude.{
  ℕ, suc, Bool, true, false, not, ◌&&◌, ◌||◌, Option, none, some, List, [], ◌∷◌, if◌then◌else◌,
  length, is_some, is_value, Table, lookup, insert, remove, keys, ltb,
}

pub data EventName : Type 0 where
  on_receive on_send on_error on_status_change : EventName

abbrev pub event_key : EventName → ℕ
event_key on_receive = 0
event_key on_send = 1
event_key on_error = 2
event_key on_status_change = 3

pub record EventEmitter : Type 0 where
  pub listeners : Table (Table ℕ)
  pub next_registration : ℕ

abbrev pub empty : EventEmitter
empty = record { listeners = []; next_registration = 0 }

-- The listeners of an event, none if no map was made for it.
pub listeners_of : EventName → EventEmitter → Table ℕ
listeners_of event s = elim (lookup (event_key event) s.listeners) [ none ↦ [] | some m ↦ m ]

abbrev set_listeners : EventName → Table ℕ → EventEmitter → EventEmitter
set_listeners event m s = record s { listeners = insert (event_key event) m s.listeners }

-- `listeners.get(listener) ?? {}`, the second a new object.
abbrev pub registration_of : Option ℕ → ℕ → ℕ
registration_of none next = next
registration_of (some registration) next = registration

-- `add`, with the registration that the returned function removes.
pub add : EventName → ℕ → EventEmitter → EventEmitter × ℕ
unfolding listeners_of
add event listener s =
    let registration =
      registration_of (lookup listener (listeners_of event s)) s.next_registration in
    (
      set_listeners event (insert listener registration (listeners_of event s))
          (record s { next_registration = suc s.next_registration }),
      registration,
    )

-- The function that `add` returned.
pub remove_registration : EventName → ℕ → ℕ → EventEmitter → EventEmitter
unfolding listeners_of
remove_registration event listener registration s =
    if is_value (lookup listener (listeners_of event s)) registration
    then set_listeners event (remove listener (listeners_of event s)) s
    else s

pub remove_listener : EventName → ℕ → EventEmitter → EventEmitter
remove_listener event listener s = elim (lookup (event_key event) s.listeners) [
  | none ↦ s
  | some m ↦ set_listeners event (remove listener m) s
]

pub has : EventName → EventEmitter → Bool
unfolding listeners_of
has event s = ltb 0 (length (listeners_of event s))

pub listener_counts : EventEmitter → EventName → ℕ
unfolding listeners_of
listener_counts s event = length (listeners_of event s)

pub clear : EventEmitter → EventEmitter
clear s = record s { listeners = [] }

abbrev pub is_on_error : EventName → Bool
is_on_error on_error = true
is_on_error _ = false

module _ (react : ℕ → EventEmitter → EventEmitter × Bool)
    (report : EventEmitter → EventEmitter) where
  -- `#reportSafely`
  abbrev pub report_safely : EventName → EventEmitter → EventEmitter
  report_safely event s = if is_on_error event then s else report s

  -- One listener is called, and what it throws is reported.
  abbrev pub call_listener : EventName → ℕ → EventEmitter → EventEmitter
  call_listener event listener s =
      let done = react listener s in if done.1 then report_safely event done.0 else done.0

  -- The loop of `emit`, with the listeners that it called.
  pub emit_each : EventName → List ℕ → EventEmitter → EventEmitter × List ℕ
  unfolding listeners_of
  emit_each event [] s = (s, [])
  emit_each event (l ∷ ls) s = elim (lookup l (listeners_of event s)) [
    | none ↦ emit_each event ls s
    | some registration ↦
        let rest = emit_each event ls (call_listener event l s) in (rest.0, l ∷ rest.1)
  ]

  pub emit : EventName → EventEmitter → EventEmitter × List ℕ
  unfolding emit_each
  emit event s = emit_each event (keys (listeners_of event s)) s

  pub emit_to : EventName → ℕ → EventEmitter → EventEmitter
  unfolding listeners_of
  emit_to event listener s =
      if is_some (lookup listener (listeners_of event s)) then call_listener event listener s else s
