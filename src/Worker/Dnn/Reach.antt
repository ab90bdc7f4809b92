-- ===== src/Worker/Dnn/Reach.antt =====
-- The detector under any interleaving of its thread's rounds with detections.
use crowdsensing.Common.{
  true, false, if◌then◌else◌, camera_open_exception, codes, ap, subst, sym, codes, ◌<◌, ◌≡◌, ◌⊎◌,
  inl, inr, refl, ◌∙◌, Bool, List, [], ◌∷◌, ◌++◌, map, Option, none, some, Bytes, ok, err, bind-ok,
  All, length, get_elem?, ◌-◌, require, Option-cases, Bool-cases, not,
}
use crowdsensing.OpenCv.{Drawing, OpenCv, IsOpenCv}
use crowdsensing.Detection.{Row, is_empty}
use crowdsensing.Worker.Dnn.{
  detect, get_outputs_names, postprocess, inp_width, inp_height, conf_threshold, nms_threshold,
}
use crowdsensing.Worker.Dnn.Scan.{Candidate, candidates, Reads}
use crowdsensing.Worker.Dnn.Report.{name_of}
use crowdsensing.Worker.Dnn.Seen.{IsSeen, get_outputs_names_lem, detect-IsSeen}
use crowdsensing.Worker.Dnn.Camera.{started, Dnn, dnn, capture_round, stop, return_mat, detect_now}

module _ (cv : OpenCv) where
  -- From the constructor, by rounds of the camera's thread, its end, and detections.
  pub data Reached (net : cv.Net) (classes : List Bytes) : Dnn cv → Type 0 where
    constructed :
        (dummy_file : Bytes) (opened : Bool) (d : Dnn cv)
        → dnn cv dummy_file classes opened ≡ ok d
        → d.net ≡ net
        → Reached net classes d
    captured :
        (grabbed : Option cv.Frame) {d : Dnn cv}
        → Reached net classes d
        → Reached net classes (capture_round cv grabbed d)
    stopped : {d : Dnn cv} → Reached net classes d → Reached net classes (stop cv d)
    detected :
        (result found : List Bytes) {d : Dnn cv} (d' : Dnn cv)
        → Reached net classes d
        → detect_now cv d result ≡ ok (found, d')
        → Reached net classes d'

  started_of :
      (net : cv.Net) (f : Bytes) {lines : List Bytes} (opened : Bool) {d : Dnn cv}
      → (if not (is_empty f)
          then ok (started cv net f lines)
          else (if opened then ok (started cv net f lines) else err camera_open_exception))
        ≡ ok d
      → d ≡ started cv net f lines
  started_of net [] true e = cc
  started_of net [] false e = cc
  started_of net (c ∷ f) opened e = cc

  pub dnn-started :
      (dummy_file : Bytes) (lines : List Bytes) (opened : Bool) (d : Dnn cv)
      → dnn cv dummy_file lines opened ≡ ok d
      → (net : cv.Net) × (d ≡ started cv net dummy_file lines)
  unfolding dnn
  dnn-started f lines opened d e =
      elim (Option-cases (
        cv.read_net_from_darknet (codes "./config/yolov3.cfg") (codes "./config/yolov3.weights"))) [
          | inl missing ↦ let e' = rw missing at e in cc
          | inr (net, read) ↦ (net, started_of net f opened (rw (read, dnn) at e))
        ]

  -- What the steps keep: the network, the classes, and what the static vector may hold.
  pub record IsReady (net : cv.Net) (classes outputs : List Bytes) (d : Dnn cv) : Type 0 where
    pub same_net : d.net ≡ net
    pub same_classes : d.classes ≡ classes
    pub kept : (d.static_names ≡ []) ⊎ (d.static_names ≡ outputs)

  grabbed_frame :
      (g : Option cv.Frame) (d : Dnn cv)
      → (f : cv.Frame) × ((elim g as (λ x. Dnn cv) [ none ↦ d | some f ↦ record d { frame = f } ])
          ≡ record d { frame = f })
  grabbed_frame none d = (d.frame, refl)
  grabbed_frame (some f) d = (f, refl)

  -- A round changes the frame at most.
  capture_round-frame :
      (g : Option cv.Frame) (d : Dnn cv)
      → (f : cv.Frame) × (capture_round cv g d ≡ record d { frame = f })
  unfolding capture_round
  capture_round-frame g d = elim (Bool-cases d.run) [
    | inr ended ↦ (d.frame, rw ended refl)
    | inl runs ↦ elim (Bool-cases d.is_dummy_mode) [
      | inl dummy ↦ (cv.imread d.dummy_file, rw (runs, dummy) refl)
      | inr camera ↦ let (f, e) = grabbed_frame g d in (f, rw (runs, camera) refl ∙ e)
    ]
  ]

  detect-static :
      (net : cv.Net) (classes static_names : List Bytes) (frame : cv.Frame) (result : List Bytes)
      (x : List Bytes × List Bytes × List Drawing)
      → detect cv net classes static_names frame result ≡ ok x
      → get_outputs_names cv net static_names ≡ ok x.1
  unfolding detect
  detect-static net classes static_names frame result x e =
      let (blob, made, e') =
        bind-ok (require (cv.blob_from_image frame inp_width inp_height)) _ x e in
      let (names, found_names, e2) = bind-ok (get_outputs_names cv net static_names) _ x e' in
      let (y, done, e3) =
        bind-ok (postprocess cv classes frame (cv.forward net blob names) result)
          (λ (found, drawn). ok (found, names, drawn)) x e2 in
      found_names ∙ ap ok (cc)

  module _ (net : cv.Net) (classes outputs : List Bytes)
      (positive : All (λ n. 0 < n) (cv.unconnected_out_layers net))
      (named : map some outputs
        ≡ map (λ n. get_elem? (cv.layer_names net) (n - 1)) (cv.unconnected_out_layers net)) where
    detect_now-keeps :
        (result found : List Bytes) (d d' : Dnn cv)
        → IsReady net classes outputs d
        → detect_now cv d result ≡ ok (found, d')
        → d' ≡ record d { static_names = outputs }
    unfolding detect_now
    detect_now-keeps result found d d' r e =
        let (x, done, e1) =
          bind-ok (detect cv d.net d.classes d.static_names d.frame result)
            (λ (found, names, drawn). ok (found, record d { static_names = names })) (found, d')
            e in
        let kept = detect-static d.net d.classes d.static_names d.frame result x done in
        let known =
          subst (λ n. get_outputs_names cv n d.static_names ≡ ok outputs) (sym r.same_net)
            (get_outputs_names_lem cv net d.static_names outputs positive named r.kept) in
        let same : x.1 ≡ outputs = cc in
        let e' : d' ≡ record d { static_names = x.1 } = cc in rw same at e'

    frame-IsReady :
        (f : cv.Frame) (d : Dnn cv)
        → IsReady net classes outputs d
        → IsReady net classes outputs (record d { frame = f })
    frame-IsReady f d q = record {
      same_net = q.same_net;
      same_classes = q.same_classes;
      kept = q.kept;
    }

    Reached-IsReady : (d : Dnn cv) → Reached net classes d → IsReady net classes outputs d
    unfolding capture_round stop
    Reached-IsReady _ (constructed f opened d e same) =
        let (n, is_started) = dnn-started f classes opened d e in
        record {
          same_net = same;
          same_classes = ap (λ (x : Dnn cv). x.classes) is_started;
          kept = inl (ap (λ (x : Dnn cv). x.static_names) is_started);
        }
    Reached-IsReady _ (captured g {d} r) =
        let (f, e) = capture_round-frame g d in
        subst (IsReady net classes outputs) (sym e) (frame-IsReady f d (Reached-IsReady d r))
    Reached-IsReady _ (stopped {d} r) =
        let q = Reached-IsReady d r in
        record { same_net = q.same_net; same_classes = q.same_classes; kept = q.kept }
    Reached-IsReady _ (detected result found {d} d' r e) =
        let q = Reached-IsReady d r in
        let e' = detect_now-keeps result found d d' q e in
        record {
          same_net = ap (λ (x : Dnn cv). x.net) e' ∙ q.same_net;
          same_classes = ap (λ (x : Dnn cv). x.classes) e' ∙ q.same_classes;
          kept = inr (ap (λ (x : Dnn cv). x.static_names) e');
        }

    -- Let the network number its unconnected outputs from 1 and name each of them. In every state that
    -- the constructor, rounds of the camera's thread, its end and detections reach in any order, if
    -- the frame becomes the network's input, there are classes, and each row of the output has one
    -- score for each class, then a detection returns, leads to a reached state with the same frame,
    -- and adds to the caller's vector the class names of the boxes that non-maximum suppression
    -- keeps of the candidates, in its order, where each name belongs to a row whose greatest score
    -- exceeds the threshold and is the class with that score.
    pub detect-Reached :
        IsOpenCv cv
        → (d : Dnn cv) (blob : cv.Blob) (rs : List (Row cv)) (result : List Bytes)
        → Reached net classes d
        → cv.blob_from_image d.frame inp_width inp_height ≡ some blob
        → 0 < length classes
        → Reads cv (cv.forward net blob outputs) rs
        → All (λ r. length r.scores ≡ length classes) rs
        → (names : List Bytes) × (d' : Dnn cv) × (detect_now cv d result ≡ ok (result ++ names, d'))
          × Reached net classes d'
          × (return_mat cv d' ≡ return_mat cv d)
          × (map some names
              ≡ map (name_of cv classes (candidates cv d.frame rs)) (
                  cv.nms_boxes
                    (map (λ (c : Candidate cv). c.box) (candidates cv d.frame rs))
                    (map (λ (c : Candidate cv). c.confidence) (candidates cv d.frame rs))
                    (conf_threshold cv)
                    (nms_threshold cv)))
          × All (IsSeen cv classes rs) names
    unfolding detect_now return_mat
    detect-Reached laws d blob rs result r made some_class reads fit =
        let q = Reached-IsReady d r in
        let (names, drawn, done, kept_names, seen) =
          detect-IsSeen cv laws net classes d.static_names outputs d.frame blob rs result made
            positive named q.kept some_class reads fit in
        let returns : detect_now cv d result
            ≡ ok (result ++ names, record d { static_names = outputs }) =
          rw (q.same_net, q.same_classes, done) refl in
        (
          names,
          record d { static_names = outputs },
          returns,
          detected result (result ++ names) _ r returns,
          refl,
          kept_names,
          seen,
        )
