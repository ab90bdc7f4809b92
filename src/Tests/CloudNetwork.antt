-- ===== src/Tests/CloudNetwork.antt =====
-- A query for two locations in cloud mode, where the edge's network finds a cat in both images.
use mathlib.Core.List.Perm
use crowdsensing.Common.{refl, List, [], ◌∷◌, Bytes, codes, arith}
use crowdsensing.Reference.{lib}
use crowdsensing.Edge.Producer.State.{State}
use crowdsensing.System.Cloud.{CloudSite}
use crowdsensing.Tests.Setup.{interest, asks}
use crowdsensing.Tests.WorkerNames.{worker}
use crowdsensing.Tests.Detection.{fetched}
use crowdsensing.Tests.Cloud.{
  cloud_interest, sent, request, site_0-Handed, site_1-Handed, not_segment_0, not_segment_1,
}

abbrev network_sites : List (CloudSite lib sent)
network_sites =
    record {
      location = codes "31";
      request = request (codes "31");
      handed = site_1-Handed;
      first = record {
        now = 8;
        seen = [];
        image = fetched;
        interest = cloud_interest (codes "31");
      };
      later = [];
      worker = worker;
      delivered = record { same_name = refl; same_parameters = refl };
      not_segment = not_segment_1;
      fits = λ d e. refl;
      some_image = omega arith;
      asks = tt;
      all_segments = omega arith;
    }
    ∷ record {
      location = codes "30";
      request = request (codes "30");
      handed = site_0-Handed;
      first = record {
        now = 9;
        seen = [];
        image = fetched;
        interest = cloud_interest (codes "30");
      };
      later = [];
      worker = worker;
      delivered = record { same_name = refl; same_parameters = refl };
      not_segment = not_segment_0;
      fits = λ d e. refl;
      some_image = omega arith;
      asks = tt;
      all_segments = omega arith;
    }
    ∷ []

abbrev outputs : List Bytes
outputs = codes "yolo" ∷ []
