-- ===== src/Tests/WorkerSegments.antt =====
-- The worker's store of segments, its reports, its command line and its detector.
use crowdsensing.Common.{
  same, if◌then◌else◌, true, null_pointer, ◌-◌, ℕ, ◌≡◌, refl, List, [], ◌∷◌, map, none, some, err,
  codes, arith, Bytes, Option,
}
use crowdsensing.Reference.{ndn, ndn-IsNdn, json, json-IsJson, InterestValue}
use crowdsensing.Worker.Encode.{encode}
use crowdsensing.Worker.Decode.{decoder, target_type, session_id, decoder-encode}
use crowdsensing.Worker.Segments.{
  Worker, populate_store, process_segment_interest, max_segment_size,
}
use crowdsensing.Worker.Segments.Cut.{numbered, chunks, segment_count, populate_store-chunks}
use crowdsensing.Worker.Segments.Serve.{process_segment_missing}
use crowdsensing.Worker.Parameter.{Variables}

abbrev empty_worker : Worker ndn
empty_worker = record {
  cd_string = codes "/3/0";
  name_prefix = ndn.of_uri (codes "/3/0");
  versioned_prefix = ndn.append_version (ndn.of_uri (codes "/3/0")) 7;
  store = [];
  output = [];
}

abbrev segment_interest : ℕ → InterestValue
segment_interest k = record {
  name = ndn.append_segment empty_worker.versioned_prefix k;
  parameters = none;
}

abbrev image : Bytes
image = codes "jpeg"

populate_store-chunks_example : populate_store image empty_worker ≡ record empty_worker {
  store =
      map
        (λ d. ndn.set_final_block d (segment_count 4 - 1))
        (numbered ndn empty_worker.versioned_prefix 0
          (chunks max_segment_size (segment_count 4) image));
}
populate_store-chunks_example =
    populate_store-chunks {ndn = ndn} image empty_worker (omega arith) refl

-- A store of one packet.
abbrev stored : Worker ndn
stored = record empty_worker { store = ndn.set_content ndn.empty_data image ∷ [] }

process_segment_missing_example :
    process_segment_interest {ndn = ndn} (segment_interest 3) stored ≡ err null_pointer
process_segment_missing_example =
    process_segment_missing {ndn = ndn} ndn-IsNdn (segment_interest 3) 3 stored refl (λ z. cc)
      (omega arith)

decoder-encode_example :
    (target_type (decoder json (encode json (codes "30") [] (codes "cat") true (codes "5")))
      ≡ codes "cat")
    × (session_id (decoder json (encode json (codes "30") [] (codes "cat") true (codes "5")))
        ≡ codes "5")
decoder-encode_example =
    decoder-encode json json-IsJson (codes "30") [] (codes "cat") true (codes "5")

-- A command line that names a dummy file, whatever its arguments.
abbrev pub dummy_variables : Variables
dummy_variables k = if same k (codes "dummy") then some (codes "a.jpg") else none

abbrev pub parse_command_line : List Bytes → Option Variables
parse_command_line args = some dummy_variables

abbrev classes : List Bytes
classes =
    codes "a"
    ∷ codes "b"
    ∷ codes "c"
    ∷ codes "d"
    ∷ codes "e"
    ∷ codes "f"
    ∷ codes "g"
    ∷ codes "h"
    ∷ codes "i"
    ∷ codes "j"
    ∷ codes "k"
    ∷ []
