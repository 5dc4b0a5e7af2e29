-- ===== src/Client/AcceptedWrites/Tests.antt =====
-- Two remembered outcomes at most, and three writes.
use serial_broker.Prelude.{none, some, List, [], ◌∷◌, ◌≡◌, refl, arith, Text, text_eq}
use serial_broker.Core.Errors
use serial_broker.Core.Errors.{SerialBrokerError, new_error, no_context}
use serial_broker.Client.AcceptedWrites.{
  in_progress, finished, new, key_of, has, add, delete, get, put, admit_key, admit, finish_key,
  finish, is_known, Call, admits, finishes, step, run,
}
use serial_broker.Client.AcceptedWrites.Keys.{key_of-injective}
use serial_broker.Client.AcceptedWrites.InFlight.{run_log, IsExclusive, run_log-IsExclusive}
use serial_broker.Client.AcceptedWrites.Memory.{last_n, outcomes, run-finished}

abbrev tab : Text
tab = b't' ∷ b'1' ∷ []

abbrev one : Text
one = b'a' ∷ []

abbrev two : Text
two = b'b' ∷ []

abbrev three : Text
three = b'c' ∷ []

abbrev away : SerialBrokerError
away = new_error Errors.ErrorCode.not_connected "The port is not open" "scale" no_context 7

abbrev calls : List Call
calls =
    admits tab one
    ∷ admits tab two
    ∷ admits tab one
    ∷ finishes tab one none
    ∷ finishes tab two (some away)
    ∷ admits tab two
    ∷ finishes tab two none
    ∷ admits tab three
    ∷ finishes tab three none
    ∷ []

all_calls : Unit {0}
unfolding run step admit finish admit_key finish_key key_of has add delete get put text_eq is_known
all_calls = tt

-- The first outcome has been pushed out by the last; the second write was begun again.
remembered : (run calls (new 2)).finished ≡ (key_of tab two, none) ∷ (key_of tab three, none) ∷ []
unfolding all_calls
remembered = refl

repeat_in_progress : (admit tab one (run (admits tab one ∷ []) (new 2))).1 ≡ in_progress
unfolding all_calls
repeat_in_progress = refl

repeat_finished : (admit tab three (run calls (new 2))).1 ≡ finished none
unfolding all_calls
repeat_finished = refl

key_of-injective_example : (tab ≡ tab) × (one ≡ one)
unfolding all_calls
key_of-injective_example = key_of-injective tab one tab one (omega arith) (omega arith) refl

run_log-IsExclusive_example : IsExclusive (run_log calls (new 2) [])
run_log-IsExclusive_example = run_log-IsExclusive 2 calls

run-finished_example : (run calls (new 2)).finished ≡ last_n 2 (outcomes calls)
unfolding all_calls
run-finished_example = run-finished 2 calls (refl, (refl, (refl, (refl, tt))))
