-- ===== src/Client/AcceptedWrites.antt =====
-- src/client/accepted-writes.ts: the writes that one tab has accepted in one term of holding the port.
-- Identifiers are texts here, since the record keys on a text built from two of them. `#inProgress`
-- is the list of its elements, `#finished` the list of its entries, oldest first.
pub mod Keys
pub mod InFlight
pub mod Memory
pub mod Admits
mod Tests
use serial_broker.Prelude.{
  ℕ, Bool, true, false, Option, none, some, List, [], ◌∷◌, ◌++◌, ◌||◌, if◌then◌else◌, ltb, length,
  is_some, Text, text_eq,
}
use serial_broker.Core.Errors.{SerialBrokerError, is_not_connected}

abbrev pub max_remembered_finished_writes : ℕ
max_remembered_finished_writes = 1024

pub data Admission : Type 0 where
  fresh : Admission
  in_progress : Admission
  finished : Option SerialBrokerError → Admission

pub record AcceptedWrites : Type 0 where
  pub in_progress : List Text
  pub finished : List (Text × Option SerialBrokerError)
  pub max_finished : ℕ

abbrev pub new : ℕ → AcceptedWrites
new max_finished = record { in_progress = []; finished = []; max_finished = max_finished }

-- `${origin} ${requestId}`
unfoldable pub key_of : Text → Text → Text
key_of origin request_id = origin ++ (32 ∷ request_id)

-- `Set.has`, `Set.add`, `Set.delete`
unfoldable pub has : Text → List Text → Bool
has k [] = false
has k (j ∷ js) = text_eq j k || has k js

unfoldable pub add : Text → List Text → List Text
unfolding has
add k js = if has k js then js else js ++ k ∷ []

pub delete : Text → List Text → List Text
delete k [] = []
delete k (j ∷ js) = let rest = delete k js in if text_eq j k then rest else j ∷ rest

-- `Map.get`, where the value may itself be `undefined`, and `Map.set`
unfoldable pub get {ℓ} : {V : Type ℓ} → Text → List (Text × V) → Option V
get key [] = none
get key (entry ∷ entries) = if text_eq entry.0 key then some entry.1 else get key entries

unfoldable pub put {ℓ} : {V : Type ℓ} → Text → V → List (Text × V) → List (Text × V)
put key value [] = (key, value) ∷ []
put key value (entry ∷ entries) =
    let later = put key value entries in
    if text_eq entry.0 key then (entry.0, value) ∷ entries else entry ∷ later

-- What takes the oldest entry out once there are more than `max`.
abbrev pub evict {ℓ} : {A : Type ℓ} → ℕ → List A → List A
evict max [] = []
evict max (e ∷ m) = if ltb max (length (e ∷ m)) then m else e ∷ m

unfoldable pub is_known : Text → Text → AcceptedWrites → Bool
unfolding has get key_of
is_known origin r s =
    has (key_of origin r) s.in_progress || is_some (get (key_of origin r) s.finished)

-- `admit` for the key of a request.
unfoldable pub admit_key : Text → AcceptedWrites → AcceptedWrites × Admission
unfolding has get add
admit_key k s = if has k s.in_progress then (s, in_progress) else (elim (get k s.finished) [
  | some e ↦ (s, finished e)
  | none ↦ (record s { in_progress = add k s.in_progress }, fresh)
])

unfoldable pub admit : Text → Text → AcceptedWrites → AcceptedWrites × Admission
unfolding admit_key key_of
admit origin r s = admit_key (key_of origin r) s

-- `error?.code === NOT_CONNECTED`
abbrev pub is_not_begun : Option SerialBrokerError → Bool
is_not_begun none = false
is_not_begun (some e) = is_not_connected e.code

-- `finish` for the key of a request.
pub finish_key : Text → Option SerialBrokerError → AcceptedWrites → AcceptedWrites
unfolding delete put
finish_key k error s =
    if is_not_begun error then record s { in_progress = delete k s.in_progress } else record s {
      in_progress = delete k s.in_progress;
      finished = evict s.max_finished (put k error s.finished);
    }

pub finish : Text → Text → Option SerialBrokerError → AcceptedWrites → AcceptedWrites
unfolding finish_key key_of
finish origin r error s = finish_key (key_of origin r) error s

-- A call of one of the two methods that change the record.
pub data Call : Type 0 where
  admits : Text → Text → Call
  finishes : Text → Text → Option SerialBrokerError → Call

pub step : Call → AcceptedWrites → AcceptedWrites
unfolding admit finish
step (admits origin r) s = (admit origin r s).0
step (finishes origin r error) s = finish origin r error s

pub run : List Call → AcceptedWrites → AcceptedWrites
run [] s = s
run (c ∷ cs) s = run cs (step c s)
