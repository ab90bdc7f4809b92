-- ===== src/Edge/Producer/Requests.antt =====
-- A client's Interest: `onInterest` in edge mode and `onInterest_Cloud` in cloud mode. Each opens a
-- session, arms its timer, and asks the workers of every location.
use crowdsensing.Common.{
  ℕ, ◌+◌, ◌%◌, true, List, [], ◌∷◌, ◌++◌, map, none, some, Bytes, codes, Result, ok, front, u64_mod,
  length, ◌>>=◌,
}
use crowdsensing.Decimal.{to_string}
use crowdsensing.Random.{random}
use crowdsensing.Libraries.{Libraries}
use crowdsensing.Edge.SessionManager
use crowdsensing.Edge.SessionManager.{Timer}
use crowdsensing.Edge.Names.{decode_uri, convert_interest_name, extract_targets, extract_locname}
use crowdsensing.Edge.Producer.State.{State, Request, Executor, express, arm, fetch}

-- `m_timeout_second`, in milliseconds.
abbrev pub timeout_second : ℕ
timeout_second = 10000

-- The name that is sent for one of the converted names.
abbrev pub sent_name : ℕ → Bytes → Bytes
sent_name session_id name = name ++ (codes "/" ++ to_string session_id)

abbrev pub session_timer : ℕ → Timer
session_timer session_id = record {
  expires_from_now = timeout_second;
  handler_session = session_id;
}

module _ (lib : Libraries) where
  -- The packet that answers the client: its Interest's name, then `IoT` and a version.
  abbrev pub answer_packet : ℕ → lib.ndn.Interest → lib.ndn.Data
  answer_packet now interest =
      let data_name =
        lib.ndn.append_version (lib.ndn.append_component (lib.ndn.get_name interest) (codes "IoT"))
          now in
      lib.ndn.sign (lib.ndn.set_freshness (lib.ndn.set_name lib.ndn.empty_data data_name) 1)

  abbrev pub edge_request : ℕ → ℕ → Bytes → Request lib.ndn.Name
  edge_request edge_mode session_id name = record {
    name = lib.ndn.of_uri (sent_name session_id name);
    can_be_prefix = true;
    must_be_fresh = true;
    lifetime_ms = 1000;
    parameters = some (edge_mode ∷ []);
  }

  abbrev pub cloud_request : ℕ → Bytes → Request lib.ndn.Name
  cloud_request session_id name = record {
    name = lib.ndn.of_uri (sent_name session_id name);
    can_be_prefix = true;
    must_be_fresh = true;
    lifetime_ms = 1000;
    parameters = none;
  }

module _ {lib : Libraries} where
  unfoldable pub on_interest : ℕ → lib.ndn.Interest → State lib → Result (State lib)
  on_interest now interest s = do
    let session_id = random s.drawn
    let interest_name = decode_uri lib.boost (lib.ndn.to_uri (lib.ndn.get_name interest))
    reinvoked_name ← convert_interest_name lib.boost interest_name []
    let timer = session_timer session_id
    ok (record s {
      number_of_arrival_interest = 0;
      issued_interest = length reinvoked_name % u64_mod;
      drawn = s.drawn + 1;
      sessions = SessionManager.add session_id (answer_packet lib now interest) timer s.sessions;
      output =
          s.output
          ++ (arm timer
              ∷ map (λ n. express (edge_request lib s.edge_mode session_id n)) reinvoked_name);
    })

  -- The loop of `onInterest_Cloud`.
  unfoldable pub fetch_each : ℕ → List Bytes → State lib → Result (State lib)
  fetch_each session_id [] s = ok s
  fetch_each session_id (n ∷ ns) s = do
    locations ← extract_locname lib.boost (sent_name session_id n)
    location ← front locations
    target ← front s.target_name
    let request = cloud_request lib session_id n
    let executor : Executor = record {
      fetcher_name = lib.ndn.to_uri request.name;
      location_name = location;
      target_name = target;
      session_id = to_string session_id;
    }
    fetch_each session_id ns
        (record s { location_name = locations; output = s.output ++ fetch request executor ∷ [] })

  unfoldable pub on_interest_cloud : ℕ → lib.ndn.Interest → State lib → Result (State lib)
  unfolding fetch_each
  on_interest_cloud now interest s = do
    let session_id = random s.drawn
    let interest_name = decode_uri lib.boost (lib.ndn.to_uri (lib.ndn.get_name interest))
    targets ← extract_targets lib.boost interest_name
    reinvoked_name ← convert_interest_name lib.boost interest_name []
    let timer = session_timer session_id
    fetch_each session_id reinvoked_name (record s {
      number_of_arrival_interest = 0;
      issued_interest = length reinvoked_name % u64_mod;
      drawn = s.drawn + 1;
      target_name = targets;
      sessions = SessionManager.add session_id (answer_packet lib now interest) timer s.sessions;
      output = s.output ++ arm timer ∷ [];
    })
