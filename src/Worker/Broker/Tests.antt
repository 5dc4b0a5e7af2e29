-- ===== src/Worker/Broker/Tests.antt =====
-- Two clients and three configurations.
use serial_broker.Prelude.{
  ◌==◌, some, List, [], ◌∷◌, ◌≡◌, refl, if◌then◌else◌, arith, lookup, insert,
}
use serial_broker.Worker.Broker.{
  Broker, empty, hello, addressed, to_all, has, take_part, Call, sends, run, delivered, add_each,
}
use serial_broker.Worker.Broker.Participants.{is_participant, is_participant-take_part}

abbrev attached : Broker
attached = record { configurations = (7, 1 ∷ 2 ∷ []) ∷ []; trace = [] }

abbrev calls : List Call
calls =
    sends [] 1 (hello (7 ∷ 8 ∷ []))
    ∷ sends [] 2 (hello (7 ∷ []))
    ∷ sends [] 1 (addressed to_all (some 7) 100)
    ∷ []

-- What one client sends reaches the other one, and not itself.
routed : (run calls empty).trace ≡ delivered 2 (addressed to_all (some 7) 100) ∷ []
unfolding run lookup insert
routed = refl

-- A client that takes part in one configuration says that it takes part in another two.
is_participant-take_part_example :
    is_participant 1 7 (take_part 1 (8 ∷ 9 ∷ []) attached).configurations
    ≡ (if 1 == 1 then has 7 (8 ∷ 9 ∷ []) else is_participant 1 7 attached.configurations)
unfolding add_each
is_participant-take_part_example =
    is_participant-take_part 1 7 1 (8 ∷ 9 ∷ []) attached (tt, tt) (ground arith)
