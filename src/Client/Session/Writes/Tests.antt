-- ===== src/Client/Session/Writes/Tests.antt =====
-- Runs of the writes of src/client/configuration-session.ts.
use serial_broker.Prelude.{
  ◌+◌, ◌≤◌, true, false, none, some, List, [], ◌∷◌, ◌≡◌, refl, Text, text_eq, arith,
}
use serial_broker.Owner.PortMatcher.{DeviceFilter, auto}
use serial_broker.Client.AcceptedWrites.{key_of, has, add, get, put, is_known, admit_key, admit}
use serial_broker.Client.AcceptedWrites.Keys.{NoSpace}
use serial_broker.Client.Session.{start, join, acquire, supervisor_status}
use serial_broker.Client.Session.State.{opened, SessionSettings, new_session}
use serial_broker.Client.Session.Histories.{starts, acquires, has_status, step}
use serial_broker.Client.Session.Writes.{Job, Desk, new_desk, find_job, approval_of}
use serial_broker.Client.Session.Writes.Counts.{under_way, taken, answered, repeated}
use serial_broker.Client.Session.Writes.Conserved.{
  Move, happens, hears_write, may_begin_asked, move, run_moves, run_moves_conserved,
}
use serial_broker.Client.Session.Writes.Approvals.{approval_of_its_issuer}

abbrev settings : SessionSettings
settings = record { auto_reconnect = true; max_tabs = none }

abbrev device : DeviceFilter
device = auto none

abbrev here : Text
here = 97 ∷ []

abbrev peer : Text
peer = 98 ∷ []

abbrev first : Text
first = 49 ∷ []

-- A peer's write is given to the tab twice, and asked about.
abbrev twice_given : List Move
twice_given =
    happens starts
    ∷ happens acquires
    ∷ happens (has_status 0 opened)
    ∷ hears_write peer first 7 0 none
    ∷ hears_write peer first 7 0 none
    ∷ may_begin_asked 0
    ∷ []

abbrev desk : Desk
desk = new_desk here (new_session device)

run_moves_conserved_example :
    (under_way 0 (key_of peer first) (run_moves settings twice_given desk).jobs ≤ 1)
    × (taken 0 (key_of peer first) (run_moves settings twice_given desk).log
        ≡ answered 0 (key_of peer first) (run_moves settings twice_given desk).log
          + repeated 0 (key_of peer first) (run_moves settings twice_given desk).log
          + under_way 0 (key_of peer first) (run_moves settings twice_given desk).jobs)
run_moves_conserved_example =
    run_moves_conserved settings twice_given here device 0 (key_of peer first)

plain_peer : NoSpace peer
plain_peer = (ground arith, tt)

plain_first : NoSpace first
plain_first = (ground arith, tt)

asked_for_job : approval_of peer first 0 (run_moves settings twice_given desk) ≡ some 0
unfolding run_moves move step start join acquire supervisor_status text_eq key_of has add get put
    is_known admit_key admit
asked_for_job = refl

approval_of_its_issuer_example :
    (j : Job) × (find_job 0 (run_moves settings twice_given desk).jobs ≡ some j)
    × (j.request.is_local ≡ false)
    × (j.request.term ≡ 0)
    × (j.request.origin ≡ peer)
    × (j.request.request_id ≡ first)
approval_of_its_issuer_example =
    approval_of_its_issuer settings twice_given here device peer first 0 0 plain_peer plain_first
      asked_for_job
