-- ===== src/Tests/WorkerLimits.antt =====
-- The worker's loop over an image, and what it makes.
use crowdsensing.Common.{◌<◌, ◌≤◌, ◌+◌, ◌*◌, refl, [], codes, length, arith, All}
use crowdsensing.Reference.{ndn, ndn-IsNdn}
use crowdsensing.Worker.Segments.{Worker, populate_store, max_segment_size}
use crowdsensing.Worker.Segments.Limits.{populate_store-bounds}

abbrev worker : Worker ndn
worker = record {
  cd_string = codes "/3/0";
  name_prefix = ndn.of_uri (codes "/3/0");
  versioned_prefix = ndn.append_version (ndn.of_uri (codes "/3/0")) 7;
  store = [];
  output = [];
}

populate_store-bounds_example :
    All
      (λ d. (0 < length (ndn.content d)) × (length (ndn.content d) ≤ max_segment_size))
      (populate_store (codes "jpeg") worker).store
    × (4 ≤ max_segment_size * length (populate_store (codes "jpeg") worker).store)
    × (max_segment_size * length (populate_store (codes "jpeg") worker).store
        < 4 + max_segment_size)
populate_store-bounds_example =
    populate_store-bounds ndn-IsNdn (codes "jpeg") worker (omega arith) refl
