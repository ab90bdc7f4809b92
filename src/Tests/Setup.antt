-- ===== src/Tests/Setup.antt =====
-- A query for two locations and two targets, the client's Interest for it, and states of the edge.
use crowdsensing.Common.{
  ℕ, ◌≡◌, refl, List, [], ◌∷◌, none, some, Bytes, codes, arith, All, Lacks, true,
}
use crowdsensing.Decimal.{to_string}
use crowdsensing.Random.{random, random-lt}
use crowdsensing.Reference.{lib, lib-IsLawful, InterestValue}
use crowdsensing.Reference.Splitting.{join}
use crowdsensing.Uri.{percent_encode}
use crowdsensing.Edge.HashTable.{find}
use crowdsensing.Edge.SessionManager.{Session}
use crowdsensing.Edge.Encode as EdgeEncode
use crowdsensing.Edge.Names.Query.{Query, IsQuery, query_name}
use crowdsensing.Edge.Producer.State.{State}
use crowdsensing.Edge.Producer.Requests.{session_timer}
use crowdsensing.Edge.Producer.Collect.{Carries, encode-Carries}
use crowdsensing.Edge.Producer.Session.{Asks}

abbrev pub query : Query
query = record {
  prefix = codes "/icn2020/edge";
  function_name = codes "od";
  location_tag = codes "#a";
  locations = codes "30" ∷ codes "31" ∷ [];
  target_tag = codes "#b";
  targets = codes "cat" ∷ codes "dog" ∷ [];
}

pub query-IsQuery : IsQuery query
query-IsQuery = record {
  function_name_token = omega arith;
  location_tag_token = omega arith;
  locations_ne = λ z. cc;
  locations_token = omega arith;
  target_tag_token = omega arith;
  targets_ne = λ z. cc;
  targets_token = omega arith;
}

abbrev pub interest_of : Bytes → InterestValue
interest_of uri = record { name = record { base = uri; components = [] }; parameters = none }

abbrev pub interest : InterestValue
interest = interest_of (codes "/icn2020/edge/od/%23a%3A%5B30%2C31%5D%20%23b%3A%5Bcat%2Cdog%5D")

plain : Lacks b'%' (query_name lib.boost query)
unfolding join
plain = omega arith

uri_lem : lib.ndn.to_uri (lib.ndn.get_name interest) ≡ percent_encode (query_name lib.boost query)
unfolding join
uri_lem = refl

pub asks : Asks lib query interest
asks = record {
  query = query-IsQuery;
  plain_name = plain;
  uri = uri_lem;
  location_count = omega arith;
}

-- The first id that the generator gives.
abbrev pub sid : ℕ
sid = random 0

abbrev pub start : State lib
start = record {
  num_thread = 0;
  num_queue = 0;
  current_queue = 0;
  edge_mode = b'e';
  drawn = 0;
  target_name = [];
  location_name = [];
  number_of_arrival_interest = 0;
  issued_interest = 0;
  ndn_face_ptr = none;
  sessions = [];
  output = [];
}

abbrev pub open_session : Session lib.ndn.Data
open_session = record {
  session_id = 9;
  data_ptr = lib.ndn.empty_data;
  timer_ptr = session_timer 9;
  buffer = codes "old";
}

-- A state in which session 9 is open and awaits two replies.
abbrev pub busy : State lib
busy = record start { issued_interest = 2; sessions = (9, open_session) ∷ [] }

abbrev pub payload : ℕ → Bytes → Bytes
payload sid location = EdgeEncode.encode lib.json location [] (codes "cat") true (to_string sid)

pub start-fresh : find (random start.drawn) start.sessions ≡ none
unfolding find
start-fresh = refl

pub busy-fresh : find (random busy.drawn) busy.sessions ≡ none
unfolding find random
busy-fresh = refl

pub busy-open : find 9 busy.sessions ≡ some open_session
unfolding find
busy-open = refl

abbrev pub payloads : ℕ → List Bytes
payloads sid = payload sid (codes "30") ∷ payload sid (codes "31") ∷ []

pub payloads_new-Carries : All (Carries lib sid) (payloads sid)
payloads_new-Carries = (
  encode-Carries lib lib-IsLawful (codes "30") [] (codes "cat") true sid (random-lt 0),
  (encode-Carries lib lib-IsLawful (codes "31") [] (codes "cat") true sid (random-lt 0), tt),
)

pub payloads_9-Carries : All (Carries lib 9) (payloads 9)
payloads_9-Carries = (
  encode-Carries lib lib-IsLawful (codes "30") [] (codes "cat") true 9 (omega arith),
  (encode-Carries lib lib-IsLawful (codes "31") [] (codes "cat") true 9 (omega arith), tt),
)
