-- ===== src/Edge/SessionManager.antt =====
-- src/edge/src/session-manager.cpp: the table of open sessions. Each method but `dump` holds the
-- recursive mutex from its first to its last statement, so it is one function on the table; `dump`
-- takes no lock, and is here what it prints of a table that stays as it is while it runs. A session
-- is stored by value; the reference that `buffer` returns, which outlives the lock, is in
-- Producer/Race.antt.
pub mod Invariant
pub mod Refinement
pub mod Every
pub mod Abstract
use crowdsensing.Common.{
  ℕ, Bool, true, false, List, [], ◌∷◌, ◌++◌, Option, none, some, Bytes, codes, Result, ok, err,
  out_of_range,
}
use crowdsensing.Decimal.{to_string}
use crowdsensing.Edge.HashTable.{find, emplace, assign}
use crowdsensing.Edge.HashTable

-- A `steady_timer` whose wait is bound to `send_data` of a session.
pub record Timer : Type 0 where
  pub expires_from_now : ℕ
  pub handler_session : ℕ

module _ (Data : Type 0) where
  pub record Session : Type 0 where
    pub session_id : ℕ
    pub data_ptr : Data
    pub timer_ptr : Timer
    pub buffer : Bytes

  -- `m_hash_table`
  abbrev pub Manager : Type 0
  Manager = List (ℕ × Session)

module _ {Data : Type 0} where
  -- A new session has an empty buffer; an id that is in use keeps its session.
  unfoldable pub add : ℕ → Data → Timer → Manager Data → Manager Data
  add key data_packet timer m = elim (find key m) [
    | none ↦
        emplace key
          (record { session_id = key; data_ptr = data_packet; timer_ptr = timer; buffer = [] }) m
    | some s ↦ m
  ]

  -- `none` is the null pointer that stands for a caught `out_of_range`.
  abbrev pub get : ℕ → Manager Data → Option (Session Data)
  get key m = find key m

  unfoldable pub erase : ℕ → Manager Data → Manager Data
  erase key m = HashTable.erase key m

  -- The value and a line feed go behind what the buffer holds.
  unfoldable pub append_payload : ℕ → Bytes → Manager Data → Bool × Manager Data
  append_payload key value m = elim (get key m) [
    | none ↦ (false, m)
    | some s ↦ (true, assign key (record s { buffer = (s.buffer ++ value) ++ b'\n' ∷ [] }) m)
  ]

  -- `at` throws on a missing key.
  unfoldable pub buffer : ℕ → Manager Data → Result Bytes
  buffer key m = elim (find key m) [ none ↦ err out_of_range | some s ↦ ok s.buffer ]

  -- A missing session gives the null pointer.
  unfoldable pub data_packet : ℕ → Manager Data → Option Data
  data_packet key m = elim (get key m) [ none ↦ none | some s ↦ some s.data_ptr ]

  -- What is written for the log, one line for each session.
  unfoldable pub dump : (Data → Bytes) → Manager Data → Bytes
  dump uri [] = []
  dump uri ((k, s) ∷ m) =
      codes "{" ++ to_string k ++ codes "," ++ uri s.data_ptr ++ codes "}, \n" ++ dump uri m
