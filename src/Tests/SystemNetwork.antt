-- ===== src/Tests/SystemNetwork.antt =====
-- A query for two locations in edge mode; the networks of both workers find a cat.
use mathlib.Core.List.Perm
use crowdsensing.Common.{◌≡◌, refl, some, true, List, [], ◌∷◌, ◌++◌, Bytes, codes, ok, ◌>>=◌, arith}
use crowdsensing.Reference.{lib, lib-IsLawful}
use crowdsensing.Reference.OpenCv.{cv, cv-IsOpenCv}
use crowdsensing.Edge.Producer.State.{put}
use crowdsensing.Edge.Producer.Requests.{on_interest, answer_packet}
use crowdsensing.Edge.Producer.Collect.{lines, replies}
use crowdsensing.Edge.Producer.Session.{requests}
use crowdsensing.Worker.Dnn.Scan.{next_row, next_layer, no_layer}
use crowdsensing.Worker.Dnn.Camera.{capture_round}
use crowdsensing.Worker.Dnn.Reach.{Reached, constructed, captured}
use crowdsensing.System.Network.{NetworkSite, Reports, network_query_served}
use crowdsensing.Tests.Setup.{sid, query, interest, asks, start, start-fresh}
use crowdsensing.Tests.WorkerNames.{shown, worker}
use crowdsensing.Tests.System.{sent, request, site_0-Handed, site_1-Handed, sent_interest}
use crowdsensing.Tests.Detection.{classes, frame, rows, detector, constructs}
use crowdsensing.Tests.Watch.{watching}

watching-Reached : Reached cv 0 classes watching
watching-Reached = captured (some frame) (constructed [] true detector constructs refl)

abbrev network_site_0 : NetworkSite cv lib sid sent
unfolding capture_round
network_site_0 = record {
  location = codes "30";
  request = request (codes "30");
  handed = site_0-Handed;
  interest = sent_interest (codes "30");
  delivered = record { same_name = refl; same_parameters = refl };
  shuffle = λ cs. cs;
  now = 8;
  worker = worker;
  net = 0;
  classes = classes;
  outputs = codes "yolo" ∷ [];
  detector = watching;
  blob = _;
  rs = rows;
  positive = (omega arith, tt);
  named = refl;
  reached = watching-Reached;
  made = refl;
  some_class = omega arith;
  reads = next_row _ _ refl (next_row _ _ refl (next_layer no_layer));
  fit = (refl, (refl, tt));
}

abbrev network_site_1 : NetworkSite cv lib sid sent
unfolding capture_round
network_site_1 = record {
  location = codes "31";
  request = request (codes "31");
  handed = site_1-Handed;
  interest = sent_interest (codes "31");
  delivered = record { same_name = refl; same_parameters = refl };
  shuffle = λ cs. cs;
  now = 9;
  worker = worker;
  net = 0;
  classes = classes;
  outputs = codes "yolo" ∷ [];
  detector = watching;
  blob = _;
  rs = rows;
  positive = (omega arith, tt);
  named = refl;
  reached = watching-Reached;
  made = refl;
  some_class = omega arith;
  reads = next_row _ _ refl (next_row _ _ refl (next_layer no_layer));
  fit = (refl, (refl, tt));
}

-- The worker at the second location answers first.
abbrev network_sites : List (NetworkSite cv lib sid sent)
network_sites = network_site_1 ∷ network_site_0 ∷ []

network_query_served_example :
    (ps : List Bytes) × Reports cv lib sid sent (codes "cat") network_sites ps
    × ((on_interest {lib = lib} 7 interest start >>= replies {lib = lib} ps)
        ≡ ok (record start {
          drawn = 1;
          output =
              requests lib-IsLawful 7 interest query asks start
              ++ put (lib.ndn.set_content (answer_packet lib 7 interest) (lines ps)) ∷ [];
        }))
unfolding network_site_1 network_site_0
network_query_served_example =
    network_query_served cv cv-IsOpenCv {lib = lib} lib-IsLawful query (codes "cat")
      (codes "dog" ∷ []) refl 7 interest asks start network_sites refl shown start-fresh
      (Perm.swap (codes "30") (codes "31") [])
