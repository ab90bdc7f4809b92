-- ===== src/Edge/Producer/Session.antt =====
-- A client's query from its Interest to its answer, and what a second query does to an open one.
use crowdsensing.Common.{
  ℕ, ◌+◌, ◌^◌, ◌<◌, ◌≡◌, ◌≢◌, refl, ap, ◌∙◌, List, [], ◌∷◌, ◌++◌, map, none, some, Bytes, ok, arith,
  All, Lacks, length, length-map, ◌>>=◌,
}
use native.Mathlib.Nat.{mod-eq_of_lt}
use crowdsensing.Random.{random}
use crowdsensing.Libraries.{Libraries, IsLawful}
use crowdsensing.Uri.{percent_encode}
use crowdsensing.Edge.HashTable.{find, emplace, find-emplace, find-erase, erase-emplace}
use crowdsensing.Edge.SessionManager
use crowdsensing.Edge.SessionManager.{Session, Timer, add}
use crowdsensing.Edge.Names.Query.{Query, IsQuery, query_name, worker_name}
use crowdsensing.Edge.Names.RoundTrip.{convert-query_name, decode_uri-encode}
use crowdsensing.Edge.Producer.State.{State, Action, put, arm, express}
use crowdsensing.Edge.Producer.Requests.{on_interest, answer_packet, edge_request, session_timer}
use crowdsensing.Edge.Producer.Collect.{lines, Carries, replies}
use crowdsensing.Edge.Producer.Answer.{replies-answered, answered}

-- The client's Interest carries the query: its URI shows the query's name in percent codes.
pub record Asks (lib : Libraries) (q : Query) (interest : lib.ndn.Interest) : Type 0 where
  pub query : IsQuery q
  pub plain_name : Lacks b'%' (query_name lib.boost q)
  pub uri : lib.ndn.to_uri (lib.ndn.get_name interest) ≡ percent_encode (query_name lib.boost q)
  pub location_count : length q.locations < 2 ^ 64

module _ {lib : Libraries} (laws : IsLawful lib) (now : ℕ) (interest : lib.ndn.Interest) (q : Query)
    (asks : Asks lib q interest) (s : State lib) where
  -- One Interest for each location of the query, in order, behind the timer.
  abbrev pub requests : List (Action lib.ndn.Name lib.ndn.Data)
  requests =
      arm (session_timer (random s.drawn))
      ∷ map (λ n. express (edge_request lib s.edge_mode (random s.drawn) n))
          (map (worker_name lib.boost q) q.locations)

  abbrev pub new_session : Session lib.ndn.Data
  new_session = record {
    session_id = random s.drawn;
    data_ptr = answer_packet lib now interest;
    timer_ptr = session_timer (random s.drawn);
    buffer = [];
  }

  abbrev pub opened : State lib
  opened = record s {
    number_of_arrival_interest = 0;
    issued_interest = length q.locations;
    drawn = s.drawn + 1;
    sessions =
        add (random s.drawn) (answer_packet lib now interest) (session_timer (random s.drawn))
          s.sessions;
    output = s.output ++ requests;
  }

  -- The Interest of a query opens a session and asks every location of the query.
  pub on_interest-opened : on_interest {lib = lib} now interest s ≡ ok opened
  unfolding on_interest
  on_interest-opened = rw (
    asks.uri,
    decode_uri-encode lib.boost laws.boost_laws (query_name lib.boost q) asks.plain_name,
    convert-query_name lib.boost laws.boost_laws q asks.query [],
    length-map (worker_name lib.boost q) q.locations,
    mod-eq_of_lt asks.location_count,
  )

  module _ (fresh : find (random s.drawn) s.sessions ≡ none) where
    pub add_fresh : opened.sessions ≡ emplace (random s.drawn) new_session s.sessions
    unfolding add
    add_fresh = rw (fresh, add)

    pub find_new : find (random s.drawn) opened.sessions ≡ some new_session
    find_new = rw add_fresh (
        ground (arith, find-emplace (random s.drawn) (random s.drawn) new_session s.sessions fresh))

    pub erase_new : SessionManager.erase (random s.drawn) opened.sessions ≡ s.sessions
    unfolding SessionManager.erase
    erase_new = rw add_fresh (erase-emplace (random s.drawn) new_session s.sessions fresh)

    not_empty : (ps : List Bytes) → length ps ≡ length q.locations → ps ≢ []
    not_empty ps count e = asks.query.locations_ne (ground (arith, count, e))

    find_old :
        (sid : ℕ) (x : Session lib.ndn.Data)
        → find sid s.sessions ≡ some x
        → find sid opened.sessions ≡ some x
    find_old sid x e =
        rw add_fresh
          (ground (arith, find-emplace (random s.drawn) sid new_session s.sessions fresh))

    find_erased : (sid : ℕ) → find sid (SessionManager.erase sid opened.sessions) ≡ none
    unfolding SessionManager.erase
    find_erased sid = ground (arith, find-erase sid sid opened.sessions)

    find_kept :
        (sid : ℕ) (x : Session lib.ndn.Data)
        → find sid s.sessions ≡ some x
        → find (random s.drawn) (SessionManager.erase sid opened.sessions) ≡ some new_session
    unfolding SessionManager.erase
    find_kept sid x e = ground (arith, find-erase sid (random s.drawn) opened.sessions, find_new)

    -- The answer to a query, in edge mode, whose new session id is not in use: when, after its
    -- Interest and with nothing in between, as many replies have come as it has locations, each a
    -- text that names the session, the client has got one packet with all of them in the order of
    -- their arrival, a line feed behind each, and the session is closed.
    pub query_answered :
        (ps : List Bytes)
        → length ps ≡ length q.locations
        → All (Carries lib (random s.drawn)) ps
        → (on_interest {lib = lib} now interest s >>= replies {lib = lib} ps)
          ≡ ok (record s {
            number_of_arrival_interest = 0;
            issued_interest = 0;
            drawn = s.drawn + 1;
            output =
                (s.output ++ requests)
                ++ put (lib.ndn.set_content (answer_packet lib now interest) (lines ps)) ∷ [];
          })
    query_answered ps count c =
        ap (λ r. r >>= replies {lib = lib} ps) on_interest-opened
        ∙ replies-answered {lib = lib} (random s.drawn) ps new_session opened find_new
            (not_empty ps count) (omega arith) asks.location_count c
        ∙ rw erase_new

    -- What a second query does while a session is open, if its own id is not in use: as many
    -- replies of the open session as the second query has locations answer the first client,
    -- however many were still to come, and nothing is awaited any more, though the second session
    -- is open and empty.
    pub overlapping_query :
        (sid : ℕ) (x : Session lib.ndn.Data) (ps : List Bytes)
        → find sid s.sessions ≡ some x
        → length ps ≡ length q.locations
        → All (Carries lib sid) ps
        → (t : State lib) × ((on_interest {lib = lib} now interest s >>= replies {lib = lib} ps)
            ≡ ok t)
          × (t.output
              ≡ (s.output ++ requests)
                ++ put (lib.ndn.set_content x.data_ptr (x.buffer ++ lines ps)) ∷ [])
          × (t.issued_interest ≡ 0)
          × (find sid t.sessions ≡ none)
          × (find (random s.drawn) t.sessions ≡ some new_session)
    overlapping_query sid x ps open_session count c = (
      answered {lib = lib} sid ps x opened,
      ap (λ r. r >>= replies {lib = lib} ps) on_interest-opened
          ∙ replies-answered {lib = lib} sid ps x opened (find_old sid x open_session)
              (not_empty ps count) (omega arith) asks.location_count c,
      refl,
      refl,
      find_erased sid,
      find_kept sid x open_session,
    )
