-- ===== src/OpenCv.antt =====
-- The part of OpenCV that the detectors call. It is not part of the repository, so it is a
-- parameter, with its documented behaviour as laws.
use crowdsensing.Common.{
  ℕ, ◌<◌, ◌≡◌, Bool, false, List, ◌∷◌, Option, some, Bytes, All, length, get_elem?, ℤ,
}

-- `cv::Rect`
pub record Rect : Type 0 where
  pub x : ℤ
  pub y : ℤ
  pub width : ℤ
  pub height : ℤ

-- What `cv::getTextSize` measures.
pub record TextSize : Type 0 where
  pub width : ℕ
  pub height : ℕ
  pub base_line : ℕ

-- What is drawn on a frame: a box by two corners, a filled box, and a text.
pub data Drawing : Type 0 where
  rectangle : ℤ → ℤ → ℤ → ℤ → Drawing
  filled : ℤ → ℤ → ℤ → ℤ → Drawing
  put_text : Bytes → ℤ → ℤ → Drawing

pub record OpenCv : Type 1 where
  -- `cv::Mat` of an image, the input of the network, and `float`.
  pub Frame : Type 0
  pub Blob : Type 0
  pub Float : Type 0
  pub Net : Type 0
  -- `cv::Mat()`
  pub empty_frame : Frame
  pub cols : Frame → ℕ
  pub rows : Frame → ℕ
  pub imread : Bytes → Frame
  -- `Mat::zeros(rows, cols, CV_8U)`
  pub zeros : ℕ → ℕ → Frame
  -- `Mat(bytes).reshape(3, 480)`; `none` is an exception.
  pub of_pixels : Bytes → Option Frame
  -- The bytes of `reshape(1, 1)`; `none` is an exception.
  pub pixels : Frame → Option Bytes
  -- `none` is an exception.
  pub read_net_from_darknet : Bytes → Bytes → Option Net
  pub layer_names : Net → List Bytes
  -- Numbers that count the layers from 1.
  pub unconnected_out_layers : Net → List ℕ
  -- `none` is an exception.
  pub blob_from_image : Frame → ℕ → ℕ → Option Blob
  -- `setInput` and then `forward`: the matrix of each named layer, row by row.
  pub forward : Net → Blob → List Bytes → List (List (List Float))
  -- The greatest value and its place, of `minMaxLoc`.
  pub max_loc : List Float → Float × ℕ
  pub gt : Float → Float → Bool
  -- The constant `n / 10`.
  pub tenths : ℕ → Float
  -- `(int) (x * n)`
  pub scaled : Float → ℕ → ℤ
  -- `NMSBoxes(boxes, confidences, score_threshold, nms_threshold, indices)`
  pub nms_boxes : List Rect → List Float → Float → Float → List ℕ
  -- `format("%.2f", x)`
  pub format : Float → Bytes
  pub get_text_size : Bytes → TextSize

-- `minMaxLoc` finds a value at its place that no other exceeds; `NMSBoxes` keeps some of the boxes.
pub record IsOpenCv (cv : OpenCv) : Type 0 where
  pub max_loc-at :
      (x : cv.Float) (xs : List cv.Float)
      → get_elem? (x ∷ xs) (cv.max_loc (x ∷ xs)).1 ≡ some (cv.max_loc (x ∷ xs)).0
  pub max_loc-max : (xs : List cv.Float) → All (λ y. cv.gt y (cv.max_loc xs).0 ≡ false) xs
  pub nms_boxes-lt :
      (boxes : List Rect) (scores : List cv.Float) (score_threshold nms_threshold : cv.Float)
      → length scores ≡ length boxes
      → All (λ i. i < length boxes) (cv.nms_boxes boxes scores score_threshold nms_threshold)
