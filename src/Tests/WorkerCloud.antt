-- ===== src/Tests/WorkerCloud.antt =====
-- The worker's handler in cloud mode, on an image of one segment.
use crowdsensing.Common.{false, ◌≡◌, refl, List, [], ◌∷◌, map, ok, codes, arith}
use crowdsensing.Reference.{lib, lib-IsLawful}
use crowdsensing.Reference.Splitting.{replace_from}
use crowdsensing.Reference.Ndn.{is_segment}
use crowdsensing.Worker.Names.{decode_uri}
use crowdsensing.Worker.Segments.{Worker, put}
use crowdsensing.Worker.Segments.Cut.{flatten}
use crowdsensing.Worker.Dispatch.{Arrival, HasSlash}
use crowdsensing.Worker.Fetching.{handle_all, image_collected}
use crowdsensing.Tests.Setup.{interest_of}

abbrev worker : Worker lib.ndn
worker = record {
  cd_string = codes "/3/0";
  name_prefix = lib.ndn.of_uri (codes "/3/0");
  versioned_prefix = lib.ndn.of_uri (codes "/3/0");
  store = [];
  output = [];
}

abbrev arrival : Arrival lib
arrival = record {
  now = 7;
  seen = [];
  image = codes "jpeg";
  interest = interest_of (codes "/3/0/od/%23b%3A%5Bcat%5D/5");
}

arrival-HasSlash : HasSlash lib arrival.interest
unfolding decode_uri replace_from
arrival-HasSlash = (codes "/3/0/od/#b:[cat]", codes "5", omega arith, refl)

not_segment : lib.ndn.is_segment (lib.ndn.get_name arrival.interest) ≡ false
unfolding is_segment
not_segment = refl

image_collected_example :
    (t : Worker lib.ndn) × (ds : List lib.ndn.Data) × (handle_all lib (arrival ∷ []) worker ≡ ok t)
    × (t.output ≡ map put ds)
    × (flatten (map lib.ndn.content ds) ≡ codes "jpeg")
image_collected_example =
    image_collected lib-IsLawful arrival [] worker arrival-HasSlash refl not_segment (λ d e. refl)
      (omega arith) tt (omega arith)
