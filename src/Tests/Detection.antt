-- ===== src/Tests/Detection.antt =====
-- Both programs' detectors on a frame with two rows, of which one is sure enough.
use crowdsensing.Common.{◌≡◌, refl, false, true, List, [], ◌∷◌, none, some, Bytes, ok, codes, ◌>>=◌}
use crowdsensing.Reference.OpenCv.{cv, Image, image}
use crowdsensing.Detection.{Row}
use crowdsensing.Worker.Dnn.{detect as worker_detect}
use crowdsensing.Worker.Dnn.Camera.{Dnn, dnn, started, capture, stop, return_mat}
use crowdsensing.Worker.Dnn.Frames.{IsShown, return_mat-IsShown}
use crowdsensing.Worker.Detection.{
  emulate_classes as worker_emulate_classes, detect as worker_emulate,
}
use crowdsensing.Edge.Detection.{emulate_classes, detect as emulate}
use crowdsensing.Edge.Dnn.{detect, Dnn as EdgeDnn}
use crowdsensing.Edge.Dnn.Agrees.{detect-agrees}

abbrev pub classes : List Bytes
classes = codes "cat" ∷ codes "dog" ∷ []

abbrev pub frame : Image
frame = image ((4 ∷ 5 ∷ 2 ∷ 2 ∷ 9 ∷ 7 ∷ 3 ∷ []) ∷ (0 ∷ 0 ∷ 0 ∷ 0 ∷ 0 ∷ 1 ∷ 2 ∷ []) ∷ [])

abbrev pub rows : List (Row cv)
rows =
    record { center_x = 4; center_y = 5; width = 2; height = 2; scores = 7 ∷ 3 ∷ [] }
    ∷ record { center_x = 0; center_y = 0; width = 0; height = 0; scores = 1 ∷ 2 ∷ [] }
    ∷ []

abbrev pub detector : Dnn cv
detector = started cv 0 [] classes

pub constructs : dnn cv [] classes true ≡ ok detector
unfolding dnn
constructs = refl

return_mat-IsShown_example :
    IsShown cv []
      (some frame ∷ none ∷ [])
      (return_mat cv (capture cv (some frame ∷ none ∷ []) detector))
    × (return_mat cv (
          capture cv
            (some (image []) ∷ [])
            (stop cv (capture cv (some frame ∷ none ∷ []) detector)))
        ≡ return_mat cv (capture cv (some frame ∷ none ∷ []) detector))
return_mat-IsShown_example =
    return_mat-IsShown cv [] classes true detector (some frame ∷ none ∷ []) (some (image []) ∷ [])
      constructs

abbrev pub edge_detector : EdgeDnn cv
edge_detector = record {
  dummy_file = [];
  is_dummy_mode = false;
  net = 0;
  classes = classes;
  static_names = [];
  run = none;
}

detect-agrees_example :
    (emulate_classes classes ≡ worker_emulate_classes classes)
    × (emulate classes frame [] ≡ worker_emulate classes [])
    × (detect cv edge_detector frame [] ≡ (
        worker_detect cv 0 classes [] frame [] >>= λ (found, names, drawn).
        ok (found, record edge_detector { static_names = names }, drawn)))
detect-agrees_example = detect-agrees cv classes classes edge_detector frame []

-- The bytes of a fetched image, which are one row for the small network.
abbrev pub fetched : Bytes
fetched = 4 ∷ 5 ∷ 2 ∷ 2 ∷ 9 ∷ 7 ∷ 3 ∷ []
