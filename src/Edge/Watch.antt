-- ===== src/Edge/Watch.antt =====
-- The executor of src/edge/src/execute.cpp with the detector that `main` gives the producer, which it
-- calls through a pointer to the base class of src/edge/src/objectdetection.hpp.
pub mod Fetches
use crowdsensing.Common.{
  ◌<◌, ◌-◌, ◌≡◌, ◌⊎◌, refl, List, [], map, some, Bytes, Result, ok, All, length, get_elem?, require,
  ◌>>=◌,
}
use crowdsensing.Libraries.{Libraries}
use crowdsensing.OpenCv.{OpenCv, IsOpenCv}
use crowdsensing.Detection.{Row}
use crowdsensing.Edge.Detection as Emulation
use crowdsensing.Edge.Dnn as Network
use crowdsensing.Edge.Dnn.{Dnn}
use crowdsensing.Edge.Dnn.Agrees.{detect-agrees}
use crowdsensing.Edge.Encode.{encode}
use crowdsensing.Edge.Execute as Execute
use crowdsensing.Edge.Execute.{contains, report}
use crowdsensing.Edge.Producer.State.{State, Executor}
use crowdsensing.Edge.Producer.Replies.{adddata}
use crowdsensing.Worker.Dnn.{inp_width, inp_height, conf_threshold, nms_threshold}
use crowdsensing.Worker.Dnn.Scan.{Candidate, candidates, Reads}
use crowdsensing.Worker.Dnn.Report.{name_of}
use crowdsensing.Worker.Dnn.Seen.{IsSeen, detect-IsSeen}

module _ (cv : OpenCv) where
  -- The two classes behind `detector_ptr`; the first with its list of classes.
  pub data Detector : Type 0 where
    emulated : List Bytes → Detector
    network : Dnn cv → Detector

  -- The virtual `detect`. The first argument is what `std::shuffle` makes of the classes.
  unfoldable pub detect :
      (List Bytes → List Bytes) → Detector → cv.Frame → List Bytes → Result (List Bytes × Detector)
  detect shuffle (emulated classes) frame result =
      Emulation.detect (shuffle classes) frame result >>= λ (shuffled, found).
      ok (found, emulated shuffled)
  detect shuffle (network d) frame result =
      Network.detect cv d frame result >>= λ (found, d', drawn). ok (found, network d')

  module _ (lib : Libraries) where
    unfoldable pub after_fetch_complete :
        (List Bytes → List Bytes)
        → Executor
        → Bytes
        → State lib
        → Detector
        → Result (State lib × Detector)
    after_fetch_complete shuffle e fetched s detector = do
      raw ← require (cv.of_pixels (lib.ndn.block_value fetched))
      (detection_result, detector') ← detect shuffle detector raw []
      let is_found = contains detection_result e.target_name
      s' ←
          adddata {lib = lib}
            (encode lib.json e.location_name [] e.target_name is_found e.session_id) s
      ok (s', detector')

    -- Let the fetched bytes become a frame and the frame the network's input, the network number its
    -- unconnected outputs from 1 and name each of them, the static vector be empty or hold these
    -- names, there be classes, and each row of the output have one score for each class. Then the
    -- executor with the network as its detector does what it does for a detector that gives the
    -- class names of the boxes that non-maximum suppression keeps of the candidates, in its order,
    -- each of which is the class with the greatest score of a row, one above the threshold; and of
    -- the detector only the static vector changes.
    pub network_fetched :
        IsOpenCv cv
        → (shuffle : List Bytes → List Bytes) (e : Executor) (fetched : Bytes) (s : State lib)
          (d : Dnn cv) (outputs : List Bytes) (frame : cv.Frame) (blob : cv.Blob)
          (rs : List (Row cv))
        → cv.of_pixels (lib.ndn.block_value fetched) ≡ some frame
        → cv.blob_from_image frame inp_width inp_height ≡ some blob
        → All (λ n. 0 < n) (cv.unconnected_out_layers d.net)
        → map some outputs
          ≡ map (λ n. get_elem? (cv.layer_names d.net) (n - 1)) (cv.unconnected_out_layers d.net)
        → (d.static_names ≡ []) ⊎ (d.static_names ≡ outputs)
        → 0 < length d.classes
        → Reads cv (cv.forward d.net blob outputs) rs
        → All (λ r. length r.scores ≡ length d.classes) rs
        → (names : List Bytes) × (after_fetch_complete shuffle e fetched s (network d) ≡ (
            Execute.after_fetch_complete {lib = lib} (λ bytes. ok names) e fetched s >>= λ s'.
            ok (s', network (record d { static_names = outputs }))))
          × (map some names
              ≡ map (name_of cv d.classes (candidates cv frame rs)) (
                  cv.nms_boxes
                    (map (λ (c : Candidate cv). c.box) (candidates cv frame rs))
                    (map (λ (c : Candidate cv). c.confidence) (candidates cv frame rs))
                    (conf_threshold cv)
                    (nms_threshold cv)))
          × All (IsSeen cv d.classes rs) names
    unfolding after_fetch_complete detect Execute.after_fetch_complete report
    network_fetched laws shuffle e fetched s d outputs frame blob rs shaped made positive named kept
          some_class reads fit =
        let (names, drawn, done, kept_names, seen) =
          detect-IsSeen cv laws d.net d.classes d.static_names outputs frame blob rs [] made
            positive named kept some_class reads fit in
        let (_, _, agrees) = detect-agrees cv [] [] d frame [] in
        (names, rw (shaped, agrees, done) refl, kept_names, seen)
