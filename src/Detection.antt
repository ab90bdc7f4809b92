-- ===== src/Detection.antt =====
-- What both programs' detectors hold while they read the network's output: a row of the output, and
-- the three vectors of `DnnObjectDetection::postprocess`.
use crowdsensing.Common.{Bool, true, false, [], Bytes, ℕ, List, ◌∷◌, Option, none, some}
use crowdsensing.OpenCv.{OpenCv, Rect}

-- `std::string::empty`
abbrev pub is_empty : Bytes → Bool
is_empty [] = true
is_empty (c ∷ s) = false

module _ (cv : OpenCv) where
  open cv use {Float}

  -- One row of a layer's output: the four numbers of its box, and behind a fifth the scores.
  pub record Row : Type 0 where
    pub center_x : Float
    pub center_y : Float
    pub width : Float
    pub height : Float
    pub scores : List Float

  -- `colRange(5, cols)` of a shorter row throws.
  abbrev pub row_of : List Float → Option Row
  row_of (x ∷ y ∷ w ∷ h ∷ objectness ∷ s) =
      some (record { center_x = x; center_y = y; width = w; height = h; scores = s })
  row_of _ = none

  -- The three vectors of `postprocess`.
  pub record Found : Type 0 where
    pub class_ids : List ℕ
    pub confidences : List Float
    pub boxes : List Rect
