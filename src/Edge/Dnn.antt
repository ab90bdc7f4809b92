-- ===== src/Edge/Dnn.antt =====
-- src/edge/src/objectdetection.cpp, `DnnObjectDetection`: the boxes that the network finds on the
-- frame that the caller passes, filtered, named and drawn. The constructor starts no thread and
-- opens no camera, so `capture` never runs.
pub mod Agrees
pub mod Life
use crowdsensing.Common.{
  system_error, not, indeterminate_value, no_element, ℕ, ◌+◌, ◌-◌, ◌*◌, ◌/◌, Bool, true, false,
  List, [], ◌∷◌, ◌++◌, Option, none, some, Bytes, codes, Result, ok, err, failed_assert, at_index,
  require, length, ltb, if◌then◌else◌, ◌>>=◌, ℤ, pos, ◌+ℤ◌, ◌-ℤ◌, half, max,
}
use crowdsensing.Detection.{is_empty, Row, row_of, Found}
use crowdsensing.OpenCv.{OpenCv, Rect, Drawing, rectangle, filled, put_text}

-- `m_input_width`, `m_input_height`
abbrev pub input_width : ℕ
input_width = 416

abbrev pub input_height : ℕ
input_height = 416

-- `round(1.5 * n)`
abbrev pub round_half_more : ℕ → ℤ
round_half_more n = pos ((3 * n + 1) / 2)

-- `layersNames[n - 1]` for each number `n`. An index 0 - 1 is past the end of any vector.
unfoldable pub names_at : List Bytes → List ℕ → Result (List Bytes)
names_at layers_names [] = ok []
names_at layers_names (n ∷ ns) = do
  name ← (if ltb 0 n then at_index layers_names (n - 1) else err no_element)
  names ← names_at layers_names ns
  ok (name ∷ names)

module _ (cv : OpenCv) where
  open cv use {Frame, Float, Net}

  -- `m_conf_threshold`, `m_nms_threshold`
  abbrev pub conf_threshold : Float
  conf_threshold = cv.tenths 5

  abbrev pub nms_threshold : Float
  nms_threshold = cv.tenths 4

  unfoldable pub box_of : Frame → Row cv → Rect
  box_of frame r =
      let center_x = cv.scaled r.center_x (cv.cols frame) in
      let center_y = cv.scaled r.center_y (cv.rows frame) in
      let width = cv.scaled r.width (cv.cols frame) in
      let height = cv.scaled r.height (cv.rows frame) in
      record {
        x = center_x -ℤ half width;
        y = center_y -ℤ half height;
        width = width;
        height = height;
      }

  -- One round of the inner loop.
  abbrev pub scan_row : Frame → Row cv → Found cv → Found cv
  scan_row frame r f =
      let (confidence, class_id) = cv.max_loc r.scores in
      if cv.gt confidence conf_threshold
      then record {
        class_ids = f.class_ids ++ class_id ∷ [];
        confidences = f.confidences ++ confidence ∷ [];
        boxes = f.boxes ++ box_of frame r ∷ [];
      }
      else f

  -- The loop over the rows of one layer, and that over the layers.
  unfoldable pub scan_layer : Frame → List (List Float) → Found cv → Result (Found cv)
  scan_layer frame [] f = ok f
  scan_layer frame (cells ∷ layer) f =
      require (row_of cv cells) >>= λ r. scan_layer frame layer (scan_row frame r f)

  unfoldable pub scan : Frame → List (List (List Float)) → Found cv → Result (Found cv)
  unfolding scan_layer
  scan frame [] f = ok f
  scan frame (layer ∷ outs) f = scan_layer frame layer f >>= scan frame outs

  -- The label of a box. `CV_Assert` throws.
  abbrev pub label_of : List Bytes → ℕ → Bytes → Result Bytes
  label_of [] class_id number = ok number
  label_of (c ∷ classes) class_id number =
      if ltb class_id (length (c ∷ classes))
      then (at_index (c ∷ classes) class_id >>= λ name. ok (name ++ (codes ":" ++ number)))
      else err failed_assert

  -- The box, the filled box behind the label, and the label.
  abbrev pub drawings : Bytes → ℤ → ℤ → ℤ → ℤ → List Drawing
  drawings label left top right bottom =
      let label_size = cv.get_text_size label in
      let top' = max top (pos label_size.height) in
      rectangle left top right bottom
      ∷ filled left (top' -ℤ round_half_more label_size.height)
          (left +ℤ round_half_more label_size.width) (top' +ℤ pos label_size.base_line)
      ∷ put_text label left top'
      ∷ []

  -- The class's name is read for the log as well, also when there are no classes.
  unfoldable pub draw_pred : List Bytes → ℕ → Float → ℤ → ℤ → ℤ → ℤ → Result (List Drawing)
  draw_pred classes class_id conf left top right bottom = do
    label ← label_of classes class_id (cv.format conf)
    name ← at_index classes class_id
    ok (drawings label left top right bottom)

  -- The loop over the indices that are kept.
  unfoldable pub report :
      List Bytes
      → Found cv
      → List ℕ
      → List Bytes
      → List Drawing
      → Result (List Bytes × List Drawing)
  report classes f [] result drawn = ok (result, drawn)
  report classes f (idx ∷ indices) result drawn = do
    box ← at_index f.boxes idx
    class_id ← at_index f.class_ids idx
    name ← at_index classes class_id
    confidence ← at_index f.confidences idx
    more ←
        draw_pred classes class_id confidence box.x box.y (box.x +ℤ box.width) (box.y +ℤ box.height)
    report classes f indices (result ++ name ∷ []) (drawn ++ more)

  unfoldable pub postprocess :
      List Bytes
      → Frame
      → List (List (List Float))
      → List Bytes
      → Result (List Bytes × List Drawing)
  unfolding scan report draw_pred
  postprocess classes frame outs result = do
    found ← scan frame outs (record { class_ids = []; confidences = []; boxes = [] })
    let indices = cv.nms_boxes found.boxes found.confidences conf_threshold nms_threshold
    report classes found indices result []

  -- The argument and the second result are the function's static vector.
  unfoldable pub get_outputs_names : Net → List Bytes → Result (List Bytes)
  unfolding names_at
  get_outputs_names net [] = names_at (cv.layer_names net) (cv.unconnected_out_layers net)
  get_outputs_names net (name ∷ names) = ok (name ∷ names)

  pub record Dnn : Type 0 where
    pub dummy_file : Bytes
    pub is_dummy_mode : Bool
    pub net : Net
    pub classes : List Bytes
    -- The static vector of `getOutputsNames`.
    pub static_names : List Bytes
    -- `m_run`: `none` is a value that nothing has written.
    pub run : Option Bool

  -- The constructor, on the lines of `coco.names`. It writes neither `m_run` nor `m_thread`.
  unfoldable pub dnn : Bytes → List Bytes → Result Dnn
  dnn dummy_file lines = do
    net ←
        require
          (cv.read_net_from_darknet (codes "./config/yolov3.cfg") (codes "./config/yolov3.weights"))
    ok (record {
      dummy_file = dummy_file;
      is_dummy_mode = not (is_empty dummy_file);
      net = net;
      classes = lines;
      static_names = [];
      run = none;
    })

  -- The destructor. No thread was ever started, and joining such a thread throws.
  unfoldable pub destroy : Dnn → Result Dnn
  destroy d = elim d.run [
    | none ↦ err indeterminate_value
    | some b ↦ if b then err system_error else ok d
  ]

  -- `m_is_verbose` is false, so that the frame with the boxes is dropped. The results are the
  -- caller's vector, the object, and what was drawn on the caller's frame.
  unfoldable pub detect : Dnn → Frame → List Bytes → Result (List Bytes × Dnn × List Drawing)
  detect d frame result = do
    blob ← require (cv.blob_from_image frame input_width input_height)
    names ← get_outputs_names d.net d.static_names
    let outs = cv.forward d.net blob names
    (found, drawn) ← postprocess d.classes frame outs result
    ok (found, record d { static_names = names }, drawn)
