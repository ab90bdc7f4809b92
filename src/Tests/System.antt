-- ===== src/Tests/System.antt =====
-- A query for two locations, with a worker at each.
use crowdsensing.Common.{some, ◌≡◌, refl, List, [], ◌∷◌, ◌++◌, Bytes, codes, ok, ◌>>=◌}
use crowdsensing.Tests.Setup.{sid}
use crowdsensing.Reference.{lib, lib-IsLawful}
use crowdsensing.Edge.Producer.State.{put}
use crowdsensing.Edge.Producer.Requests.{on_interest, answer_packet}
use crowdsensing.Edge.Producer.Collect.{lines, replies}
use crowdsensing.Edge.Producer.Session.{requests}
use crowdsensing.System.{Site, Answer, query_served}
use crowdsensing.Tests.Setup.{query, interest, asks, start, start-fresh}
use crowdsensing.Tests.WorkerNames.{delivered, shown, worker}
use crowdsensing.Reference.{InterestValue}
use crowdsensing.Edge.Run.{Handed}
use crowdsensing.Edge.Names.Query.{worker_name}
use crowdsensing.Edge.Producer.State.{Request}
use crowdsensing.Edge.Producer.Requests.{edge_request}
use crowdsensing.System.Sent.{sent_to, requests_sent}

-- What the edge sends for the query.
abbrev pub sent : List (Bytes × Request lib.ndn.Name)
sent = sent_to lib query.locations start (on_interest {lib = lib} 7 interest start)

abbrev pub request : Bytes → Request lib.ndn.Name
request l = edge_request lib b'e' sid (worker_name lib.boost query l)

pub site_0-Handed : Handed (codes "30", request (codes "30")) sent
site_0-Handed = (
  [],
  (codes "31", request (codes "31")) ∷ [],
  requests_sent lib-IsLawful 7 interest query asks start refl,
)

pub site_1-Handed : Handed (codes "31", request (codes "31")) sent
site_1-Handed = (
  (codes "30", request (codes "30")) ∷ [],
  [],
  requests_sent lib-IsLawful 7 interest query asks start refl,
)

abbrev pub sent_interest : Bytes → InterestValue
sent_interest l = delivered l (some (codes "e"))

abbrev sites : List (Site lib sent)
sites =
    record {
      location = codes "30";
      request = request (codes "30");
      handed = site_0-Handed;
      interest = sent_interest (codes "30");
      delivered = record { same_name = refl; same_parameters = refl };
      now = 8;
      seen = codes "dog" ∷ codes "cat" ∷ [];
      image = [];
      worker = worker;
    }
    ∷ record {
      location = codes "31";
      request = request (codes "31");
      handed = site_1-Handed;
      interest = sent_interest (codes "31");
      delivered = record { same_name = refl; same_parameters = refl };
      now = 9;
      seen = codes "bus" ∷ [];
      image = [];
      worker = worker;
    }
    ∷ []

query_served_example :
    (ps : List Bytes) × Answer lib sent sites ps
    × ((on_interest {lib = lib} 7 interest start >>= replies {lib = lib} ps)
        ≡ ok (record start {
          drawn = 1;
          output =
              requests lib-IsLawful 7 interest query asks start
              ++ put (lib.ndn.set_content (answer_packet lib 7 interest) (lines ps)) ∷ [];
        }))
query_served_example =
    query_served lib-IsLawful query (codes "cat") (codes "dog" ∷ []) refl 7 interest asks start
      sites refl shown start-fresh refl
