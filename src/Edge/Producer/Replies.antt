-- ===== src/Edge/Producer/Replies.antt =====
-- The replies of the workers: `onData` in edge mode and `adddata` in cloud mode, which collect the
-- payloads of a session, and `send_data`, which answers the client.
use crowdsensing.Common.{
  ℕ, ◌+◌, ◌%◌, [], ◌∷◌, ◌++◌, Option, none, some, Bytes, codes, Result, ok, err, deref,
  bad_lexical_cast, catch_out_of_range, u64_mod, ◌==◌, if◌then◌else◌, ◌>>=◌,
}
use crowdsensing.Libraries.{Libraries}
use crowdsensing.Edge.SessionManager
use crowdsensing.Edge.SessionManager.{append_payload, buffer, data_packet}
use crowdsensing.Edge.Producer.State.{State, put}

-- `boost::lexical_cast<uint64_t>`, which throws.
abbrev pub cast : Option ℕ → Result ℕ
cast none = err bad_lexical_cast
cast (some n) = ok n

module _ {lib : Libraries} where
  -- The first argument is the timer's error code, which the handler does not read. Only `buffer`
  -- throws `out_of_range`, before anything is changed.
  -- `Face::put` takes every packet here.
  unfoldable pub send_data : ℕ → ℕ → State lib → Result (State lib)
  unfolding buffer data_packet
  send_data error session_id s =
      catch_out_of_range
        (buffer session_id s.sessions >>= λ bytes.
          deref (data_packet session_id s.sessions) >>= λ packet. ok (record s {
            output = s.output ++ put (lib.ndn.set_content packet bytes) ∷ [];
            sessions = SessionManager.erase session_id s.sessions;
          }))
        s

  -- What `onData` and `adddata` do once they know the session. A payload of a session that does not
  -- exist is counted too.
  unfoldable pub deliver : ℕ → Bytes → State lib → Result (State lib)
  unfolding send_data
  deliver session_id value s =
      let kept = record s {
        sessions = (append_payload session_id value s.sessions).1;
        number_of_arrival_interest = (s.number_of_arrival_interest + 1) % u64_mod;
      } in
      if kept.number_of_arrival_interest == kept.issued_interest
      then (send_data 0 session_id kept >>= λ sent.
          ok (record sent { number_of_arrival_interest = 0; issued_interest = 0 }))
      else ok kept

  -- `onData`, on the content of the Data packet. A text that does not parse is the null value.
  unfoldable pub on_data : Bytes → State lib → Result (State lib)
  on_data value s =
      let obj = lib.json.member (lib.json.parse value) (codes "session_id") in
      if lib.json.is_null obj
      then ok s
      else (cast (lib.boost.lexical_cast (lib.json.string_value obj)) >>= λ session_id.
          deliver session_id value s)

  -- `adddata`, on the report of the edge's own detector.
  unfoldable pub adddata : Bytes → State lib → Result (State lib)
  adddata result s =
      let obj = lib.json.member (lib.json.parse result) (codes "session_id") in
      if lib.json.is_null obj
      then ok s
      else (cast (lib.boost.lexical_cast (lib.json.string_value obj)) >>= λ session_id.
          deliver session_id result s)

  -- `onNack` and `onTimeout` write to the log, and nothing else. They are bound nowhere.
  unfoldable pub on_nack : Bytes → State lib → Result (State lib)
  on_nack reason s = ok s

  unfoldable pub on_timeout : lib.ndn.Interest → State lib → Result (State lib)
  on_timeout interest s = ok s
