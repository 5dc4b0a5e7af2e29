-- ===== src/Client/OwnerTerms/Tests.antt =====
-- A history of two terms.
use serial_broker.Prelude.{lookup, insert, true, false, some, List, [], ◌∷◌, ◌≡◌, refl}
use serial_broker.Client.OwnerTerms.{
  empty, is_term_ended, Call, hears, answers_check, grants_watch, held, free, run,
}
use serial_broker.Client.OwnerTerms.Messages.{
  TermClaim, speaks_for_owner, releases, carries_device_data, is_same_claim,
}
use serial_broker.Client.OwnerTerms.Current.{Inv}
use serial_broker.Client.OwnerTerms.Steps.{terms-run-Inv}

abbrev first_claim : TermClaim
first_claim = record { term = 1; from = 10; max_tabs = 4 }

abbrev second_claim : TermClaim
second_claim = record { term = 2; from = 20; max_tabs = 4 }

-- The first term is checked and found held, its holder lets go cleanly, and says so.
abbrev calls : List Call
calls =
    hears (speaks_for_owner first_claim 100)
    ∷ hears (carries_device_data 10 101)
    ∷ answers_check 0 1 held
    ∷ hears (speaks_for_owner second_claim 102)
    ∷ answers_check 1 2 free
    ∷ grants_watch 0 1 true
    ∷ []

current_first : (run calls empty).current ≡ some 1
unfolding run is_term_ended lookup insert is_same_claim
current_first = refl

still_open : is_term_ended 1 (run calls empty) ≡ false
unfolding run is_term_ended lookup insert is_same_claim
still_open = refl

ended_by_goodbye : is_term_ended 1 (run (hears (releases 1 10) ∷ []) (run calls empty)) ≡ true
unfolding run is_term_ended lookup insert is_same_claim
ended_by_goodbye = refl

terms-run-Inv_example : Inv (run calls empty)
terms-run-Inv_example = terms-run-Inv calls
