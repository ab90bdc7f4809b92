-- ===== src/Worker/Watch.antt =====
-- The worker with the detector that `main` gives it: the handler of src/worker/src/worker.cpp calls
-- `detect` and `returnMat` of src/worker/src/objectdetection.hpp through a pointer to the base class.
pub mod Network
use crowdsensing.Common.{
  ℕ, Bool, not, ◌&&◌, false, List, [], ◌∷◌, Bytes, codes, Result, ok, same, require, if◌then◌else◌,
  ◌>>=◌,
}
use crowdsensing.Libraries.{Libraries}
use crowdsensing.OpenCv.{OpenCv}
use crowdsensing.Worker.Detection as Emulation
use crowdsensing.Worker.Dnn.Camera as Camera
use crowdsensing.Worker.Dnn.Camera.{Dnn, detect_now}
use crowdsensing.Worker.Names.{decode_uri, extract_targets, extract_session_id}
use crowdsensing.Worker.Segments.{Worker}
use crowdsensing.Worker.Handlers.{dispatch, requested_mode}

module _ (cv : OpenCv) where
  -- The two classes behind `detector_ptr`; the first with its list of classes.
  pub data Detector : Type 0 where
    emulated : List Bytes → Detector
    network : Dnn cv → Detector

  -- The virtual `detect`. The first argument is what `std::shuffle` makes of the classes.
  unfoldable pub detect :
      (List Bytes → List Bytes) → Detector → List Bytes → Result (List Bytes × Detector)
  detect shuffle (emulated classes) result =
      Emulation.detect (shuffle classes) result >>= λ (shuffled, found).
      ok (found, emulated shuffled)
  detect shuffle (network d) result =
      detect_now cv d result >>= λ (found, d'). ok (found, network d')

  -- The virtual `returnMat`.
  unfoldable pub return_mat : Detector → cv.Frame
  return_mat (emulated classes) = cv.zeros 5 5
  return_mat (network d) = Camera.return_mat cv d

  -- The condition under which the handler detects, on the targets of the Interest.
  unfoldable pub detects : Bytes → List Bytes → Bool
  detects edge_mode [] = false
  detects edge_mode (target ∷ more) = same edge_mode (codes "e")

  -- The condition under which the handler takes the image.
  unfoldable pub takes_image : Bytes → List Bytes → Bool → Bool
  takes_image edge_mode [] is_segment = false
  takes_image edge_mode (target ∷ more) is_segment =
      not (same edge_mode (codes "e")) && (same edge_mode (codes "c") && not is_segment)

  module _ (lib : Libraries) where
    -- `onInterest`, with the calls of the detector.
    unfoldable pub on_interest :
        (List Bytes → List Bytes)
        → ℕ
        → lib.ndn.Interest
        → Worker lib.ndn
        → Detector
        → Result (Worker lib.ndn × Detector)
    on_interest shuffle now interest w detector = do
      let uri = decode_uri lib.boost (lib.ndn.to_uri (lib.ndn.get_name interest))
      target_name ← extract_targets lib.boost uri
      session_id ← extract_session_id lib.boost uri
      let edge_mode = requested_mode lib interest
      (seen, detector') ←
          (if detects edge_mode target_name then detect shuffle detector [] else ok ([], detector))
      image ←
          (if takes_image edge_mode target_name (lib.ndn.is_segment (lib.ndn.get_name interest))
            then require (cv.pixels (return_mat detector))
            else ok [])
      w' ← dispatch lib now seen image interest target_name session_id w
      ok (w', detector')
