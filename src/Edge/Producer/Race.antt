-- ===== src/Edge/Producer/Race.antt =====
-- Two threads inside `send_data`: the timer's thread and that of the face. The lock of the session
-- manager is held for one call at a time, so the other thread may run between two calls, and `dump`
-- goes through the table without the lock.
use crowdsensing.Common.{
  ℕ, ◌≡◌, Bool, true, false, List, [], ◌∷◌, ◌++◌, Option, none, some, Fault, ok, err, null_pointer,
  dangling_reference, data_race, arith, Option-cases, inl, inr,
}
use crowdsensing.Libraries.{Libraries}
use crowdsensing.Edge.HashTable.{find, find-erase}
use crowdsensing.Edge.SessionManager
use crowdsensing.Edge.SessionManager.{Session, buffer, data_packet}
use crowdsensing.Edge.Producer.State.{State, put}
use crowdsensing.Edge.Producer.Replies.{send_data}

-- How far a thread is in `send_data`. `buffer` returns a reference to the session's own vector.
pub data Phase (Data : Type 0) : Type 0 where
  begins : Phase Data
  has_buffer : Phase Data
  has_packet : Option Data → Phase Data
  has_sent : Phase Data
  dumping : Phase Data
  has_dumped : Phase Data
  finished : Phase Data
  crashed : Fault → Phase Data

module _ {lib : Libraries} where
  -- The erasure, which is undefined behaviour while the other thread goes through the table.
  unfoldable pub erased : ℕ → Phase lib.ndn.Data → State lib → Phase lib.ndn.Data × State lib
  erased sid dumping s = (crashed data_race, s)
  erased sid _ s = (finished, record s { sessions = SessionManager.erase sid s.sessions })

  -- What a thread does next, when the other one is in the phase of the second argument. The vector
  -- that `buffer` has returned is read when the content is set; it goes when its session is erased.
  unfoldable pub advance :
      ℕ → Phase lib.ndn.Data → Phase lib.ndn.Data → State lib → Phase lib.ndn.Data × State lib
  unfolding buffer data_packet erased
  advance sid other begins s = elim (buffer sid s.sessions) [
    | ok bytes ↦ (has_buffer, s)
    | err e ↦ (finished, s)
  ]
  advance sid other has_buffer s = (has_packet (data_packet sid s.sessions), s)
  advance sid other (has_packet none) s = (crashed null_pointer, s)
  advance sid other (has_packet (some d)) s = elim (find sid s.sessions) [
    | none ↦ (crashed dangling_reference, s)
    | some x ↦
        (has_sent, record s { output = s.output ++ put (lib.ndn.set_content d x.buffer) ∷ [] })
  ]
  advance sid other has_sent s = (dumping, s)
  advance sid other dumping s = (has_dumped, s)
  advance sid other has_dumped s = erased sid other s
  advance sid other finished s = (finished, s)
  advance sid other (crashed e) s = (crashed e, s)

-- All steps of one thread in `send_data`, and what comes then: `true` for the first thread.
abbrev pub steps_of : Bool → List Bool → List Bool
steps_of b bs = b ∷ b ∷ b ∷ b ∷ b ∷ b ∷ bs

-- The two threads, and what they share.
pub record Threads (lib : Libraries) : Type 0 where
  pub first : Phase lib.ndn.Data
  pub second : Phase lib.ndn.Data
  pub shared : State lib

module _ {lib : Libraries} where
  -- The session of each thread comes first.
  abbrev pub advance_one : ℕ → ℕ → Bool → Threads lib → Threads lib
  advance_one sid other true t = record t {
    first = (advance sid t.second t.first t.shared).0;
    shared = (advance sid t.second t.first t.shared).1;
  }
  advance_one sid other false t = record t {
    second = (advance other t.first t.second t.shared).0;
    shared = (advance other t.first t.second t.shared).1;
  }

  -- The calls in the order of a schedule, `true` for the first thread.
  abbrev pub interleave : ℕ → ℕ → List Bool → Threads lib → Threads lib
  interleave sid other [] t = t
  interleave sid other (b ∷ bs) t = interleave sid other bs (advance_one sid other b t)

  abbrev pub both_begin : State lib → Threads lib
  both_begin s = record { first = begins; second = begins; shared = s }

  -- A thread that is not interrupted in `send_data` does what `send_data` does.
  pub uninterrupted :
      (error sid other : ℕ) (s : State lib)
      → (interleave sid other (steps_of true []) (both_begin s)).first ≡ finished
        × (send_data error sid s
            ≡ ok (interleave sid other (steps_of true []) (both_begin s)).shared)
  unfolding advance send_data erased
  uninterrupted error sid other s = elim (Option-cases (find sid s.sessions)) [
    | inl e ↦ (ground (arith, e), ground (arith, e))
    | inr (x, e) ↦ (ground (arith, e), ground (arith, e))
  ]

  -- For every open session there is a schedule of two threads in `send_data` in which the first
  -- reads through a null pointer: the second answers the session after the first has got its
  -- buffer.
  pub race_null_pointer :
      (sid : ℕ) (s : State lib) (x : Session lib.ndn.Data)
      → find sid s.sessions ≡ some x
      → (interleave sid sid (true ∷ steps_of false (true ∷ true ∷ [])) (both_begin s)).first
        ≡ crashed null_pointer
  unfolding advance erased SessionManager.erase
  race_null_pointer sid s x e = ground (arith, e, find-erase sid sid s.sessions)

  -- For every open session there is a schedule of two threads in `send_data` in which the first
  -- sets the packet's content from a vector that is gone: the second answers the session, and so
  -- erases it, after the first has got both its buffer and its packet.
  pub race_dangling_reference :
      (sid : ℕ) (s : State lib) (x : Session lib.ndn.Data)
      → find sid s.sessions ≡ some x
      → (interleave sid sid (true ∷ true ∷ steps_of false (true ∷ [])) (both_begin s)).first
        ≡ crashed dangling_reference
  unfolding advance erased SessionManager.erase
  race_dangling_reference sid s x e = ground (arith, e, find-erase sid sid s.sessions)

  -- For any two open sessions, different or not, there is a schedule of two threads in `send_data`
  -- in which the second erases its session while the first goes through the table in `dump`.
  pub race_dump :
      (sid other : ℕ) (s : State lib) (x y : Session lib.ndn.Data)
      → find sid s.sessions ≡ some x
      → find other s.sessions ≡ some y
      → (interleave sid other (true ∷ true ∷ true ∷ true ∷ steps_of false []) (both_begin s)).second
        ≡ crashed data_race
  unfolding advance erased
  race_dump sid other s x y e f = ground (arith, e, f)
