-- ===== src/Worker/Dnn/Camera.antt =====
-- src/worker/src/objectdetection.cpp, the constructor and destructor of `DnnObjectDetection`, the
-- thread that captures frames, and the two calls that clone the frame. The lock is held while the
-- frame is written and while it is cloned, so each is one step.
use crowdsensing.Common.{
  Bool, true, false, not, List, [], ◌∷◌, Option, none, some, Bytes, codes, Result, ok, err,
  camera_open_exception, require, if◌then◌else◌, ◌>>=◌,
}
use crowdsensing.OpenCv.{OpenCv}
use crowdsensing.Detection.{is_empty}
use crowdsensing.Worker.Dnn.{detect}

module _ (cv : OpenCv) where
  pub record Dnn : Type 0 where
    pub dummy_file : Bytes
    pub is_dummy_mode : Bool
    pub net : cv.Net
    pub classes : List Bytes
    pub run : Bool
    pub frame : cv.Frame
    -- The static vector of `getOutputsNames`.
    pub static_names : List Bytes

  -- The members after the first lines of the constructor.
  abbrev pub started : cv.Net → Bytes → List Bytes → Dnn
  started net dummy_file lines = record {
    dummy_file = dummy_file;
    is_dummy_mode = not (is_empty dummy_file);
    net = net;
    classes = lines;
    run = true;
    frame = cv.empty_frame;
    static_names = [];
  }

  -- The constructor, on the lines of `coco.names`; the third argument says whether the camera opens.
  unfoldable pub dnn : Bytes → List Bytes → Bool → Result Dnn
  dnn dummy_file lines opened = do
    net ←
        require
          (cv.read_net_from_darknet (codes "./config/yolov3.cfg") (codes "./config/yolov3.weights"))
    let d = started net dummy_file lines
    if d.is_dummy_mode then ok d else (if opened then ok d else err camera_open_exception)

  -- One round of `capture`, with the frame that the camera grabs, if it grabs one.
  unfoldable pub capture_round : Option cv.Frame → Dnn → Dnn
  capture_round grabbed d =
      if d.run
      then (if d.is_dummy_mode
          then record d { frame = cv.imread d.dummy_file }
          else elim grabbed [ none ↦ d | some f ↦ record d { frame = f } ])
      else d

  unfoldable pub capture : List (Option cv.Frame) → Dnn → Dnn
  capture [] d = d
  capture (g ∷ gs) d = capture gs (capture_round g d)

  -- The destructor ends the loop.
  unfoldable pub stop : Dnn → Dnn
  stop d = record d { run = false }

  unfoldable pub return_mat : Dnn → cv.Frame
  return_mat d = d.frame

  unfoldable pub detect_now : Dnn → List Bytes → Result (List Bytes × Dnn)
  detect_now d result = do
    (found, names, drawn) ← detect cv d.net d.classes d.static_names d.frame result
    ok (found, record d { static_names = names })
