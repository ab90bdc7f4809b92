-- ===== src/Tests/EdgeRace.antt =====
-- Two threads that send sessions 4 and 9, or both session 4, at the same time.
use crowdsensing.Common.{
  data_race, dangling_reference, ◌≡◌, refl, true, false, [], ◌∷◌, some, codes, Bytes, ℕ,
}
use crowdsensing.Reference.{lib}
use crowdsensing.Edge.HashTable.{find}
use crowdsensing.Edge.SessionManager.{Session}
use crowdsensing.Edge.Producer.State.{State}
use crowdsensing.Edge.Producer.Requests.{session_timer}
use crowdsensing.Edge.Producer.Race.{
  interleave, both_begin, crashed, steps_of, race_dump, race_dangling_reference,
}
use crowdsensing.Tests.Setup.{start}

abbrev session_of : ℕ → Bytes → Session lib.ndn.Data
session_of id bytes = record {
  session_id = id;
  data_ptr = lib.ndn.empty_data;
  timer_ptr = session_timer id;
  buffer = bytes;
}

abbrev two_open : State lib
two_open = record start {
  sessions = (9, session_of 9 (codes "nine")) ∷ (4, session_of 4 (codes "four")) ∷ [];
}

open_4 : find 4 two_open.sessions ≡ some (session_of 4 (codes "four"))
unfolding find
open_4 = refl

open_9 : find 9 two_open.sessions ≡ some (session_of 9 (codes "nine"))
unfolding find
open_9 = refl

race_dump_example :
    (interleave {lib = lib} 4 9
      (true ∷ true ∷ true ∷ true ∷ steps_of false [])
      (both_begin {lib = lib} two_open)).second
    ≡ crashed data_race
race_dump_example =
    race_dump {lib = lib} 4 9 two_open (session_of 4 (codes "four")) (session_of 9 (codes "nine"))
      open_4 open_9

race_dangling_reference_example :
    (interleave {lib = lib} 4 4
      (true ∷ true ∷ steps_of false (true ∷ []))
      (both_begin {lib = lib} two_open)).first
    ≡ crashed dangling_reference
race_dangling_reference_example =
    race_dangling_reference {lib = lib} 4 two_open (session_of 4 (codes "four")) open_4
