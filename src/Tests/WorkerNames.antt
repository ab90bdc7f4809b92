-- ===== src/Tests/WorkerNames.antt =====
-- What a worker reads off the edge's Interest, and its answer.
use mathlib.Core.List.{Mem}
use crowdsensing.Random.{random, random-lt}
use crowdsensing.System.Sent.{IsShown}
use crowdsensing.Common.{
  All, Option, Bytes, true, ◌≡◌, ◌↔◌, refl, Bool, [], ◌∷◌, ◌++◌, some, ok, codes, arith, Lacks,
}
use crowdsensing.Tests.Setup.{sid}
use crowdsensing.Decimal.{to_string}
use crowdsensing.Reference.{lib, lib-IsLawful, boost, boost-IsBoost, InterestValue}
use crowdsensing.Reference.Splitting.{join}
use crowdsensing.Uri.{percent_encode}
use crowdsensing.Edge.Names.Query.{worker_name}
use crowdsensing.Edge.Producer.Collect.{Carries}
use crowdsensing.Worker.Encode as WorkerEncode
use crowdsensing.Worker.Names.{extract_targets}
use crowdsensing.Worker.Names.RoundTrip.{extract_targets-worker_name}
use crowdsensing.Worker.Segments.{Worker, put}
use crowdsensing.Worker.Handlers.{on_interest, location_text}
use crowdsensing.Worker.Reply.{Receives, detection_answered}
use crowdsensing.Tests.Setup.{query, query-IsQuery}

extract_targets-worker_name_example :
    extract_targets boost (worker_name boost query (codes "30") ++ (b'/' ∷ codes "5"))
    ≡ ok (codes "cat" ∷ codes "dog" ∷ [])
extract_targets-worker_name_example =
    extract_targets-worker_name boost boost-IsBoost query (codes "30") (codes "5") query-IsQuery
      (omega arith) (omega arith)

-- The edge's Interest for the location whose digits are 3 and `c`, in the first
-- session.
abbrev pub received : Bytes → InterestValue
received c = record {
  name = lib.ndn.of_uri (
      codes "/3/"
      ++ (c
          ++ (codes "/od/%23a%3A%5B3"
              ++ (c ++ codes "%5D%20%23b%3A%5Bcat%2Cdog%5D/2469588189546311528"))));
  parameters = some (codes "e");
}

-- That Interest as the edge asks for it, with the parameters given.
abbrev pub delivered : Bytes → Option Bytes → InterestValue
delivered l parameters = record {
  name = lib.ndn.of_uri (worker_name lib.boost query l ++ (b'/' ∷ to_string sid));
  parameters = parameters;
}

plain_0 : Lacks b'%' (worker_name lib.boost query (codes "30") ++ (b'/' ∷ to_string sid))
unfolding join to_string random
plain_0 = omega arith

plain_1 : Lacks b'%' (worker_name lib.boost query (codes "31") ++ (b'/' ∷ to_string sid))
unfolding join to_string random
plain_1 = omega arith

pub shown : All (λ l. IsShown lib query sid l) query.locations
shown =
    (record { plain_name = plain_0; uri = refl }, (record { plain_name = plain_1; uri = refl }, tt))

uri_0 :
    lib.ndn.to_uri (lib.ndn.get_name (received (codes "0")))
    ≡ percent_encode (worker_name lib.boost query (codes "30") ++ (b'/' ∷ to_string sid))
unfolding join to_string random
uri_0 = refl

pub received_0-Receives : Receives lib query (codes "30") sid (received (codes "0"))
received_0-Receives = record {
  query = query-IsQuery;
  location = omega arith;
  session_fits = random-lt 0;
  plain_name = plain_0;
  uri = uri_0;
}

abbrev pub worker : Worker lib.ndn
worker = record {
  cd_string = codes "/3/0";
  name_prefix = lib.ndn.of_uri (codes "/3/0");
  versioned_prefix = lib.ndn.of_uri (codes "/3/0");
  store = [];
  output = [];
}

detection_answered_example :
    (d : lib.ndn.Data) × (found : Bool) × (on_interest lib 7
        (codes "dog" ∷ codes "cat" ∷ [])
        []
        (received (codes "0"))
        worker
      ≡ ok (record worker { output = put d ∷ [] }))
    × (lib.ndn.content d
        ≡ WorkerEncode.encode lib.json
            (location_text lib worker)
            []
            (codes "cat")
            found
            (to_string sid))
    × ((found ≡ true) ↔ Mem (codes "cat") (codes "dog" ∷ codes "cat" ∷ []))
    × Carries lib sid (lib.ndn.content d)
detection_answered_example =
    detection_answered lib-IsLawful query (codes "30") sid (received (codes "0"))
      received_0-Receives 7 (codes "dog" ∷ codes "cat" ∷ []) [] worker (codes "cat")
      (codes "dog" ∷ []) refl refl
