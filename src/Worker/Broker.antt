-- ===== src/Worker/Broker.antt =====
-- src/worker/broker.ts: `Broker`, which routes messages between participants. Participants and names of
-- configurations are opaque: numbers. `#configurations` is a table of lists without repetition.
-- `trace` is what `host.deliver` was handed, newest first; the code acts on none of it.
pub mod Participants
mod Tests
use serial_broker.Prelude.{
  ℕ, Bool, true, false, not, ◌||◌, Option, none, some, List, [], ◌∷◌, ◌++◌, ◌==◌, if◌then◌else◌,
  leb, length, Table, lookup, insert,
}

-- `MAX_CONFIGURATIONS` of protocol/limits.ts
abbrev pub max_configurations : ℕ
max_configurations = 4096

-- The messages, as far as the broker reads them: the last number stands for the rest.
pub data Target : Type 0 where
  to_all : Target
  to_client : ℕ → Target

pub data ProtocolMessage : Type 0 where
  hello : List ℕ → ProtocolMessage
  welcome worker_log diagnostics_request : ProtocolMessage
  addressed : Target → Option ℕ → ℕ → ProtocolMessage

pub data Delivery : Type 0 where
  delivered : ℕ → ProtocolMessage → Delivery

pub record Broker : Type 0 where
  pub configurations : Table (List ℕ)
  pub trace : List Delivery

abbrev pub empty : Broker
empty = record { configurations = []; trace = [] }

-- `Set.has`, `Set.add`, `Set.delete`, `new Set(names)`
pub has : ℕ → List ℕ → Bool
has x [] = false
has x (y ∷ ys) = y == x || has x ys

pub add : ℕ → List ℕ → List ℕ
unfolding has
add x ys = if has x ys then ys else ys ++ x ∷ []

pub delete : ℕ → List ℕ → List ℕ
delete x [] = []
delete x (y ∷ ys) = let rest = delete x ys in if y == x then rest else y ∷ rest

pub add_each : List ℕ → List ℕ → List ℕ
unfolding add
add_each [] set = set
add_each (x ∷ xs) set = add_each xs (add x set)

abbrev pub is_empty : List ℕ → Bool
is_empty [] = true
is_empty _ = false

-- The first loop of `#takePart`: the client leaves every configuration that it does not name.
pub leave : List ℕ → ℕ → Table (List ℕ) → Table (List ℕ)
unfolding has delete
leave names client [] = []
leave names client ((name, participants) ∷ rest) =
    let others = leave names client rest in
    if has name names
    then (name, participants) ∷ others
    else if is_empty (delete client participants)
    then others
    else (name, delete client participants) ∷ others

-- One round of the second loop, with `#participantsOf`.
pub join : ℕ → ℕ → Table (List ℕ) → Table (List ℕ)
unfolding add
join client name m = elim (lookup name m) [
  | some participants ↦ insert name (add client participants) m
  | none ↦ if leb max_configurations (length m) then m else insert name (add client []) m
]

pub join_each : ℕ → List ℕ → Table (List ℕ) → Table (List ℕ)
unfolding join
join_each client [] m = m
join_each client (name ∷ names) m = join_each client names (join client name m)

-- `#takePart`
pub take_part : ℕ → List ℕ → Broker → Broker
unfolding add_each leave join_each
take_part client names b =
    let set = add_each names [] in
    record b { configurations = join_each client set (leave set client b.configurations) }

-- The message goes to every one of the clients but one.
pub deliver_but : ℕ → ProtocolMessage → List ℕ → List Delivery → List Delivery
deliver_but sender message [] ds = ds
deliver_but sender message (c ∷ cs) ds =
    deliver_but sender message cs (if c == sender then ds else delivered c message ∷ ds)

pub participants_named : Option ℕ → Broker → List ℕ
participants_named none b = []
participants_named (some name) b = elim (lookup name b.configurations) [
  | none ↦ []
  | some participants ↦ participants
]

-- `#route`
pub route : Target → Option ℕ → ProtocolMessage → ℕ → Broker → Broker
unfolding deliver_but participants_named
route (to_client client) name message sender b = record b {
  trace = delivered client message ∷ b.trace;
}
route to_all name message sender b = record b {
  trace = deliver_but sender message (participants_named name b) b.trace;
}

-- `handleMessage`; `clients` is what `host.clients()` answers.
pub handle_message : List ℕ → ℕ → ProtocolMessage → Broker → Broker
unfolding take_part route deliver_but
handle_message clients client (hello names) b = take_part client names b
handle_message clients client welcome b = b
handle_message clients client worker_log b = b
handle_message clients client diagnostics_request b = record b {
  trace = deliver_but client diagnostics_request clients b.trace;
}
handle_message clients client (addressed target name rest) b =
    route target name (addressed target name rest) client b

pub handle_disconnect : ℕ → Broker → Broker
unfolding take_part
handle_disconnect client b = take_part client [] b

pub dispose : Broker → Broker
dispose b = record b { configurations = [] }

pub data Call : Type 0 where
  sends : List ℕ → ℕ → ProtocolMessage → Call
  disconnects : ℕ → Call

pub step : Call → Broker → Broker
unfolding handle_message handle_disconnect
step (sends clients client message) b = handle_message clients client message b
step (disconnects client) b = handle_disconnect client b

pub run : List Call → Broker → Broker
unfolding step
run [] b = b
run (c ∷ cs) b = run cs (step c b)
