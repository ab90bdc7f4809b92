-- ===== src/Tests/Cloud.antt =====
-- A query for two locations in cloud mode; the fetch from the second location is complete first.
use mathlib.Core.List.Perm
use crowdsensing.Common.{◌≡◌, refl, false, List, [], ◌∷◌, none, Bytes, codes, arith}
use crowdsensing.Tests.Setup.{sid}
use crowdsensing.Reference.{lib, lib-IsLawful, InterestValue}
use crowdsensing.Reference.Ndn.{is_segment}
use crowdsensing.Edge.Producer.State.{State}
use crowdsensing.Edge.Producer.Requests.{on_interest_cloud}
use crowdsensing.Edge.Run.{Handed}
use crowdsensing.Edge.Names.Query.{worker_name}
use crowdsensing.Edge.Producer.State.{Request}
use crowdsensing.Edge.Producer.Requests.{cloud_request}
use crowdsensing.System.Sent.{sent_to, fetches_sent}
use crowdsensing.System.Cloud.{CloudSite}
use crowdsensing.Tests.Setup.{query, interest, asks, start}
use crowdsensing.Tests.WorkerNames.{delivered, worker}

-- What the edge sends for the query.
abbrev pub sent : List (Bytes × Request lib.ndn.Name)
sent = sent_to lib query.locations start (on_interest_cloud {lib = lib} 7 interest start)

abbrev pub request : Bytes → Request lib.ndn.Name
request l = cloud_request lib sid (worker_name lib.boost query l)

pub site_0-Handed : Handed (codes "30", request (codes "30")) sent
site_0-Handed = (
  [],
  (codes "31", request (codes "31")) ∷ [],
  fetches_sent lib-IsLawful 7 interest query asks start (codes "cat") (codes "dog" ∷ []) refl,
)

pub site_1-Handed : Handed (codes "31", request (codes "31")) sent
site_1-Handed = (
  (codes "30", request (codes "30")) ∷ [],
  [],
  fetches_sent lib-IsLawful 7 interest query asks start (codes "cat") (codes "dog" ∷ []) refl,
)

abbrev pub cloud_interest : Bytes → InterestValue
cloud_interest l = delivered l none

pub not_segment_0 : lib.ndn.is_segment (lib.ndn.get_name (cloud_interest (codes "30"))) ≡ false
unfolding is_segment
not_segment_0 = refl

pub not_segment_1 : lib.ndn.is_segment (lib.ndn.get_name (cloud_interest (codes "31"))) ≡ false
unfolding is_segment
not_segment_1 = refl

abbrev sites : List (CloudSite lib sent)
sites =
    record {
      location = codes "31";
      request = request (codes "31");
      handed = site_1-Handed;
      first = record {
        now = 8;
        seen = [];
        image = codes "bus";
        interest = cloud_interest (codes "31");
      };
      later = [];
      worker = worker;
      delivered = record { same_name = refl; same_parameters = refl };
      not_segment = not_segment_1;
      fits = λ d e. refl;
      some_image = omega arith;
      asks = tt;
      all_segments = omega arith;
    }
    ∷ record {
      location = codes "30";
      request = request (codes "30");
      handed = site_0-Handed;
      first = record {
        now = 9;
        seen = [];
        image = codes "cat";
        interest = cloud_interest (codes "30");
      };
      later = [];
      worker = worker;
      delivered = record { same_name = refl; same_parameters = refl };
      not_segment = not_segment_0;
      fits = λ d e. refl;
      some_image = omega arith;
      asks = tt;
      all_segments = omega arith;
    }
    ∷ []

-- The detector takes an image for the name of what it shows.
abbrev named : Bytes → List Bytes
named image = image ∷ []
