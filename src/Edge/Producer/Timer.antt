-- ===== src/Edge/Producer/Timer.antt =====
-- `send_data` as the timer calls it.
use crowdsensing.Common.{ℕ, ◌≡◌, ◌⊎◌, inl, inr, [], ◌∷◌, ◌++◌, none, some, ok, arith, Option-cases}
use crowdsensing.Libraries.{Libraries}
use crowdsensing.Edge.HashTable.{find, find-erase}
use crowdsensing.Edge.SessionManager
use crowdsensing.Edge.SessionManager.{Session, buffer, data_packet}
use crowdsensing.Edge.Producer.State.{State, put}
use crowdsensing.Edge.Producer.Replies.{send_data}

module _ {lib : Libraries} where
  abbrev pub sent : ℕ → Session lib.ndn.Data → State lib → State lib
  sent sid x s = record s {
    output = s.output ++ put (lib.ndn.set_content x.data_ptr x.buffer) ∷ [];
    sessions = SessionManager.erase sid s.sessions;
  }

  pub send_data_missing :
      (error sid : ℕ) (s : State lib) → find sid s.sessions ≡ none → send_data error sid s ≡ ok s
  unfolding send_data
  send_data_missing error sid s e = ground (arith, e)

  pub send_data_open :
      (error sid : ℕ) (s : State lib) (x : Session lib.ndn.Data)
      → find sid s.sessions ≡ some x
      → send_data error sid s ≡ ok (sent sid x s)
  unfolding send_data
  send_data_open error sid s x e = ground (arith, e)

  find-sent :
      (sid : ℕ) (x : Session lib.ndn.Data) (s : State lib) → find sid (sent sid x s).sessions ≡ none
  unfolding SessionManager.erase
  find-sent sid x s = ground (arith, find-erase sid sid s.sessions)

  -- Sending always returns. An open session is answered with what it has collected, and sending it
  -- again, as the timer of an answered session does, changes nothing; if a session is not open,
  -- sending it changes nothing.
  pub send_data_once :
      (error error' sid : ℕ) (s : State lib)
      → ((find sid s.sessions ≡ none) × (send_data error sid s ≡ ok s))
        ⊎ ((x : Session lib.ndn.Data) × (find sid s.sessions ≡ some x)
            × (send_data error sid s ≡ ok (sent sid x s))
            × (send_data error' sid (sent sid x s) ≡ ok (sent sid x s)))
  send_data_once error error' sid s = elim (Option-cases (find sid s.sessions)) [
    | inl e ↦ inl (e, send_data_missing error sid s e)
    | inr (x, e) ↦ inr (
      x,
      e,
      send_data_open error sid s x e,
      send_data_missing error' sid (sent sid x s) (find-sent sid x s),
    )
  ]
