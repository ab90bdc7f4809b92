-- ===== src/Edge/Producer/Answer.antt =====
-- From the replies to the client's answer.
use crowdsensing.Common.{
  append-nil, ℕ, ◌+◌, ◌^◌, ◌<◌, ◌≡◌, ◌≢◌, refl, ◌∙◌, List, [], ◌∷◌, ◌++◌, some, Bytes, ok, arith,
  All, length, append_assoc,
}
use crowdsensing.Libraries.{Libraries}
use crowdsensing.Edge.HashTable.{find, assign}
use crowdsensing.Edge.SessionManager
use crowdsensing.Edge.SessionManager.{Session}
use crowdsensing.Edge.Producer.State.{State, put}
use crowdsensing.Edge.Producer.Collect.{
  lines, Carries, replies, on_data-Carries, grown, find-grown, erase-grown, deliver_more,
  deliver_last,
}

module _ {lib : Libraries} where
  -- The state when the last of `ps` has closed the session.
  abbrev pub answered : ℕ → List Bytes → Session lib.ndn.Data → State lib → State lib
  answered sid ps x s = record s {
    number_of_arrival_interest = 0;
    issued_interest = 0;
    sessions = SessionManager.erase sid s.sessions;
    output = s.output ++ put (lib.ndn.set_content x.data_ptr (x.buffer ++ lines ps)) ∷ [];
  }

  -- If as many replies come as are still awaited, at least one and all of one open session, and
  -- fewer than 2 ^ 64 were issued, they make one answer: the payloads behind what the session
  -- held, in the order of their arrival, a line feed behind each. The session is then closed and
  -- nothing is awaited.
  pub replies-answered :
      (sid : ℕ) (ps : List Bytes) (x : Session lib.ndn.Data) (s : State lib)
      → find sid s.sessions ≡ some x
      → ps ≢ []
      → s.number_of_arrival_interest + length ps ≡ s.issued_interest
      → s.issued_interest < 2 ^ 64
      → All (Carries lib sid) ps
      → replies ps s ≡ ok (answered sid ps x s)
  unfolding replies
  replies-answered sid [] x s open_session ne count w c = absurd (ne refl)
  replies-answered sid (p ∷ []) x s open_session ne count w c =
      rw (on_data-Carries sid p s c.0, deliver_last sid p s x open_session (omega arith) w)
        (rw append_assoc)
  replies-answered sid (p ∷ q ∷ ps) x s open_session ne count w c =
      rw
        (
          on_data-Carries sid p s c.0,
          deliver_more sid p s x open_session (omega arith) (omega arith),
        )
        (replies-answered sid (q ∷ ps) (grown sid p s x open_session) _
            (find-grown sid p s x open_session) (λ z. cc) (omega arith) w c.1
          ∙ rw (erase-grown sid p s x open_session) (simp append_assoc))

  -- While no reply is awaited, replies of an open session, fewer than 2 ^ 64 with those counted,
  -- are kept, and none of them answers the client.
  pub replies_unawaited :
      (sid : ℕ) (ps : List Bytes) (x : Session lib.ndn.Data) (s : State lib)
      → find sid s.sessions ≡ some x
      → s.issued_interest ≡ 0
      → s.number_of_arrival_interest + length ps < 2 ^ 64
      → All (Carries lib sid) ps
      → (t : State lib) × (replies ps s ≡ ok t)
        × (t.output ≡ s.output)
        × (find sid t.sessions ≡ some (record x { buffer = x.buffer ++ lines ps }))
  unfolding replies
  replies_unawaited sid [] x s open_session e w c =
      (s, refl, refl, ground (arith, append-nil x.buffer))
  replies_unawaited sid (p ∷ ps) x s open_session e w c =
      let (t, done, same_output, kept) =
        replies_unawaited sid ps (grown sid p s x open_session)
          (record s {
            sessions = assign sid (grown sid p s x open_session) s.sessions;
            number_of_arrival_interest = s.number_of_arrival_interest + 1;
          })
          (find-grown sid p s x open_session) e (omega arith) c.1 in
      (
        t,
        rw
            (
              on_data-Carries sid p s c.0,
              deliver_more sid p s x open_session (omega arith) (omega arith),
            )
            done,
        same_output,
        kept ∙ simp append_assoc,
      )
