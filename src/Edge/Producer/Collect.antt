-- ===== src/Edge/Producer/Collect.antt =====
-- One reply of a session: one that is not the last awaited, and the last.
use crowdsensing.Common.{
  ◌≢◌, ℕ, ◌+◌, ◌<◌, ◌^◌, ◌≡◌, Bool, true, false, List, [], ◌∷◌, ◌++◌, some, Bytes, codes, Result,
  ok, arith, ◌>>=◌,
}
use crowdsensing.Libraries.{Libraries, IsLawful}
use crowdsensing.Decimal.{to_string}
use crowdsensing.Edge.HashTable.{find, assign, find-assign, erase-assign}
use crowdsensing.Edge.SessionManager
use crowdsensing.Edge.SessionManager.{Session, append_payload, buffer, data_packet}
use crowdsensing.Edge.Encode.{encode}
use crowdsensing.Edge.Producer.State.{State, put}
use crowdsensing.Edge.Producer.Replies.{deliver, on_data}

-- The payloads as they are collected, a line feed behind each.
abbrev pub lines : List Bytes → Bytes
lines [] = []
lines (p ∷ ps) = p ++ (b'\n' ∷ lines ps)

-- The payload parses, and names the session.
pub record Carries (lib : Libraries) (session_id : ℕ) (payload : Bytes) : Type 0 where
  pub present :
      lib.json.is_null (lib.json.member (lib.json.parse payload) (codes "session_id")) ≡ false
  pub cast_value :
      lib.boost.lexical_cast
        (lib.json.string_value (lib.json.member (lib.json.parse payload) (codes "session_id")))
      ≡ some session_id

-- A report that the encoder wrote for a session names that session.
pub encode-Carries :
    (lib : Libraries)
    → IsLawful lib
    → (location time target : Bytes) (found : Bool) (sid : ℕ) → sid < 2 ^ 64
    → Carries lib sid (encode lib.json location time target found (to_string sid))
unfolding encode
encode-Carries lib laws location time target found sid h =
    let j = laws.json_laws in
    record {
      present = rw (j.parse-dump, j.member-object, j.is_null-plain);
      cast_value =
          rw (j.parse-dump, j.member-object, j.string_value-text)
            (laws.boost_laws.lexical_cast-to_string sid h);
    }

module _ {lib : Libraries} where
  -- Replies that arrive one after the other.
  unfoldable pub replies : List Bytes → State lib → Result (State lib)
  replies [] s = ok s
  replies (p ∷ ps) s = on_data p s >>= replies ps

  pub on_data-Carries :
      (sid : ℕ) (p : Bytes) (s : State lib) → Carries lib sid p → on_data p s ≡ deliver sid p s
  unfolding on_data
  on_data-Carries sid p s c = rw (c.present, c.cast_value)

  module _ (sid : ℕ) (v : Bytes) (s : State lib) (x : Session lib.ndn.Data)
      (open_session : find sid s.sessions ≡ some x) where
    abbrev pub grown : Session lib.ndn.Data
    grown = record x { buffer = (x.buffer ++ v) ++ b'\n' ∷ [] }

    append_payload_open : append_payload sid v s.sessions ≡ (true, assign sid grown s.sessions)
    unfolding append_payload
    append_payload_open = rw (open_session, append_payload)

    pub find-grown : find sid (assign sid grown s.sessions) ≡ some grown
    find-grown = ground (arith, find-assign sid sid grown x s.sessions)

    pub erase-grown :
        SessionManager.erase sid (assign sid grown s.sessions) ≡ SessionManager.erase sid s.sessions
    unfolding SessionManager.erase
    erase-grown = erase-assign sid grown s.sessions

    -- A reply that is not the last one awaited is kept.
    pub deliver_more :
        s.number_of_arrival_interest + 1 ≢ s.issued_interest
        → s.number_of_arrival_interest + 1 < 2 ^ 64
        → deliver sid v s
          ≡ ok (record s {
            sessions = assign sid grown s.sessions;
            number_of_arrival_interest = s.number_of_arrival_interest + 1;
          })
    unfolding deliver
    deliver_more h w = ground (arith, append_payload_open)

    -- The last reply answers the client and closes the session.
    pub deliver_last :
        s.number_of_arrival_interest + 1 ≡ s.issued_interest
        → s.issued_interest < 2 ^ 64
        → deliver sid v s
          ≡ ok (record s {
            sessions = SessionManager.erase sid s.sessions;
            output = s.output ++ put (lib.ndn.set_content x.data_ptr grown.buffer) ∷ [];
            number_of_arrival_interest = 0;
            issued_interest = 0;
          })
    unfolding deliver
    deliver_last h w = ground (arith, append_payload_open, find-grown, erase-grown)
