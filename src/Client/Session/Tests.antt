-- ===== src/Client/Session/Tests.antt =====
-- Runs of src/client/configuration-session.ts.
use serial_broker.Prelude.{true, ◌||◌, none, some, List, [], ◌∷◌, is_some, ◌≡◌, refl}
use serial_broker.Owner.PortMatcher.{DeviceFilter, auto}
use serial_broker.Client.Session.{start, join, acquire, supervisor_status}
use serial_broker.Client.Session.Inbox.{apply_status}
use serial_broker.Client.Session.State.{
  opened, released, has_released, SessionSettings, new_session, StatusMessage, connecting,
}
use serial_broker.Client.Session.Order.{IsSafe, spoken}
use serial_broker.Client.Session.Histories.{
  Happening, starts, acquires, loses, releases, has_stopped, has_status, hears_status, step, run,
  run-new_session-IsSafe,
}
use serial_broker.Client.Session.Silence.{spoken-run_silent}
use serial_broker.Client.Session.Release.{ending, run-ending_released}

abbrev settings : SessionSettings
settings = record { auto_reconnect = true; max_tabs = none }

abbrev device : DeviceFilter
device = auto none

abbrev one_term : List Happening
one_term =
    starts ∷ acquires ∷ has_status 0 opened ∷ loses ∷ has_status 0 connecting ∷ has_stopped 0 ∷ []

abbrev in_term : List Happening
in_term = starts ∷ acquires ∷ has_status 0 opened ∷ []

abbrev other_limit : StatusMessage
other_limit = record { status = opened; max_tabs = some 2; device = none }

abbrev withdrawn : List Happening
withdrawn = starts ∷ hears_status other_limit ∷ []

run-new_session-IsSafe_example : IsSafe (run settings one_term (new_session device)).trace
run-new_session-IsSafe_example = run-new_session-IsSafe settings one_term device

spoken-run_silent_example :
    (spoken
        (run settings
          (acquires ∷ releases ∷ [])
          (run settings withdrawn (new_session device))).trace
      ≡ spoken (run settings withdrawn (new_session device)).trace)
    × ((run settings
            (acquires ∷ releases ∷ [])
            (run settings withdrawn (new_session device))).is_released
          || is_some
              (run settings
                (acquires ∷ releases ∷ [])
                (run settings withdrawn (new_session device))).withdrawal
        ≡ true)
unfolding run apply_status start join
spoken-run_silent_example =
    spoken-run_silent settings withdrawn (acquires ∷ releases ∷ []) device refl

run-ending_released_example :
    ((run settings
        (ending (run settings in_term (new_session device)).term)
        (run settings in_term (new_session device))).status
      ≡ released)
    × ((run settings
          (ending (run settings in_term (new_session device)).term)
          (run settings in_term (new_session device))).release_phase
        ≡ has_released)
unfolding run supervisor_status acquire start join
run-ending_released_example = run-ending_released settings in_term device refl

spoken-in_term : spoken (run settings in_term (new_session device)).trace ≡ 4
unfolding run step start join acquire supervisor_status
spoken-in_term = refl
