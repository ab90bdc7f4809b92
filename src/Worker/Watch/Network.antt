-- ===== src/Worker/Watch/Network.antt =====
-- The worker's answer in edge mode, with the network as its detector.
use mathlib.Core.List.{Mem}
use crowdsensing.Common.{
  refl, ℕ, ◌<◌, ◌-◌, ◌≡◌, ◌↔◌, Bool, true, List, [], ◌∷◌, ◌++◌, map, some, Bytes, codes, ok, All,
  length, get_elem?, ap, ◌∙◌, ◌>>=◌,
}
use crowdsensing.Decimal.{to_string}
use crowdsensing.Libraries.{Libraries, IsLawful}
use crowdsensing.OpenCv.{OpenCv, IsOpenCv}
use crowdsensing.Detection.{Row}
use crowdsensing.Edge.Names.Query.{Query}
use crowdsensing.Worker.Dnn.{inp_width, inp_height, conf_threshold, nms_threshold}
use crowdsensing.Worker.Dnn.Scan.{Candidate, candidates, Reads}
use crowdsensing.Worker.Dnn.Report.{name_of}
use crowdsensing.Worker.Dnn.Seen.{IsSeen}
use crowdsensing.Worker.Dnn.Camera.{Dnn}
use crowdsensing.Worker.Dnn.Reach.{Reached, detect-Reached}
use crowdsensing.Worker.Encode.{encode}
use crowdsensing.Worker.Names.{decode_uri, extract_targets, extract_session_id}
use crowdsensing.Worker.Segments.{Worker, put}
use crowdsensing.Worker.Handlers.{dispatch, location_text, requested_mode}
use crowdsensing.Worker.Handlers as Handlers
use crowdsensing.Worker.Reply.{Receives, read_targets, read_session_id, detection_answered}
use crowdsensing.Worker.Watch.{Detector, network, detect, detects, takes_image, on_interest}

module _ (cv : OpenCv) (lib : Libraries) where
  -- In edge mode the handler works on what the detector finds, and takes no image.
  on_interest_detected :
      (shuffle : List Bytes → List Bytes) (now : ℕ) (interest : lib.ndn.Interest)
      (w w' : Worker lib.ndn) (d d' : Detector cv) (t : Bytes) (ts seen : List Bytes) (sid : Bytes)
      → extract_targets lib.boost
          (decode_uri lib.boost (lib.ndn.to_uri (lib.ndn.get_name interest)))
        ≡ ok (t ∷ ts)
      → extract_session_id lib.boost
          (decode_uri lib.boost (lib.ndn.to_uri (lib.ndn.get_name interest)))
        ≡ ok sid
      → lib.ndn.parameters interest ≡ some (codes "e")
      → detect cv shuffle d [] ≡ ok (seen, d')
      → Handlers.on_interest lib now seen [] interest w ≡ ok w'
      → on_interest cv lib shuffle now interest w d ≡ ok (w', d')
  unfolding on_interest Handlers.on_interest detects takes_image dispatch
  on_interest_detected shuffle now interest w w' d d' t ts seen sid targets session mode found
        done =
      let done' = rw (targets, session, dispatch, requested_mode, mode) at done in
      rw (targets, session, detects, takes_image, requested_mode, mode, found)
        (ap (λ r. r >>= λ x. ok (x, d')) done')

  -- Edge mode with the network as the detector, on an Interest that the edge sends for a session and
  -- a location of a well-formed query. Let the network number its unconnected outputs from 1 and
  -- name each of them, the detector be in a state that its constructor, its thread's rounds, its
  -- end and detections reach, its frame become the network's input, there be classes, and each row
  -- of the output have one score for each class. Then the handler returns with one packet put and
  -- the detector in a reached state, and the packet's content reports for the session whether the
  -- query's first target is among the class names of the boxes that non-maximum suppression keeps
  -- of the candidates, each of which is the class with the greatest score of a row, one above the
  -- threshold.
  pub network_answered :
      IsLawful lib
      → IsOpenCv cv
      → (q : Query) (l : Bytes) (sid : ℕ) (interest : lib.ndn.Interest)
        (shuffle : List Bytes → List Bytes) (now : ℕ) (w : Worker lib.ndn) (t : Bytes)
        (ts : List Bytes) (net : cv.Net) (classes outputs : List Bytes) (d : Dnn cv)
        (blob : cv.Blob) (rs : List (Row cv))
      → Receives lib q l sid interest
      → lib.ndn.parameters interest ≡ some (codes "e")
      → q.targets ≡ t ∷ ts
      → All (λ n. 0 < n) (cv.unconnected_out_layers net)
      → map some outputs
        ≡ map (λ n. get_elem? (cv.layer_names net) (n - 1)) (cv.unconnected_out_layers net)
      → Reached cv net classes d
      → cv.blob_from_image d.frame inp_width inp_height ≡ some blob
      → 0 < length classes
      → Reads cv (cv.forward net blob outputs) rs
      → All (λ r. length r.scores ≡ length classes) rs
      → (answer : lib.ndn.Data) × (found : Bool) × (names : List Bytes) × (d' : Dnn cv)
        × (on_interest cv lib shuffle now interest w (network d)
            ≡ ok (record w { output = w.output ++ put answer ∷ [] }, network d'))
        × Reached cv net classes d'
        × (lib.ndn.content answer
            ≡ encode lib.json (location_text lib w) [] t found (to_string sid))
        × ((found ≡ true) ↔ Mem t names)
        × (map some names
            ≡ map (name_of cv classes (candidates cv d.frame rs)) (
                cv.nms_boxes
                  (map (λ (c : Candidate cv). c.box) (candidates cv d.frame rs))
                  (map (λ (c : Candidate cv). c.confidence) (candidates cv d.frame rs))
                  (conf_threshold cv)
                  (nms_threshold cv)))
        × All (IsSeen cv classes rs) names
  unfolding detect
  network_answered laws cv_laws q l sid interest shuffle now w t ts net classes outputs d blob rs
        got mode first positive named r made some_class reads fit =
      let (names, d', detected, reached, frame, kept, seen) =
        detect-Reached cv net classes outputs positive named cv_laws d blob rs [] r made some_class
          reads fit in
      let (answer, found, done, text, iff, carries) =
        detection_answered laws q l sid interest got now names [] w t ts mode first in
      (
        answer,
        found,
        names,
        d',
        on_interest_detected shuffle now interest w _ (network d) (network d') t ts names
            (to_string sid) (read_targets laws q l sid interest got ∙ ap ok first)
            (read_session_id laws q l sid interest got) mode (rw detected refl) done,
        reached,
        text,
        iff,
        kept,
        seen,
      )
