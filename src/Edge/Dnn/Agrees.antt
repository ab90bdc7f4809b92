-- ===== src/Edge/Dnn/Agrees.antt =====
-- The edge's detector against the worker's, on one frame.
use crowdsensing.Common.{
  zero, suc, ℤ, bind-ext, bind_assoc, sym, ℕ, ◌≡◌, refl, ap, List, [], ◌∷◌, ◌++◌, Bytes, ok, ◌>>=◌,
  ◌∙◌, require, at_index, ◌+ℤ◌,
}
use crowdsensing.OpenCv.{OpenCv, Drawing}
use crowdsensing.Detection.{Found, row_of, Row}
use crowdsensing.Edge.Detection.{emulate_classes, copy_n, detect as emulate}
use crowdsensing.Worker.Detection.{
  emulate_classes as worker_emulate_classes, copy_n as worker_copy_n, detect as worker_emulate,
}
use crowdsensing.Edge.Dnn.{
  input_width, input_height, Dnn, detect, postprocess, get_outputs_names, names_at, scan,
  scan_layer, scan_row, report, draw_pred, box_of,
}
use crowdsensing.Worker.Dnn.{
  detect as worker_detect, postprocess as worker_postprocess,
  get_outputs_names as worker_get_outputs_names, names_at as worker_names_at, scan as worker_scan,
  scan_layer as worker_scan_layer, report as worker_report, draw_pred as worker_draw_pred,
  box_of as worker_box_of, scan_row as worker_scan_row,
}

names_at-agrees :
    (layers : List Bytes) (ns : List ℕ) → names_at layers ns ≡ worker_names_at layers ns
unfolding names_at worker_names_at
names_at-agrees layers [] = refl
names_at-agrees layers (n ∷ ns) = rw (names_at-agrees layers ns) refl

module _ (cv : OpenCv) where
  scan_row-agrees :
      (frame : cv.Frame) (r : Row cv) (f : Found cv)
      → scan_row cv frame r f ≡ worker_scan_row cv frame r f
  unfolding box_of worker_box_of
  scan_row-agrees frame r f = refl

  scan_layer-agrees :
      (frame : cv.Frame) (layer : List (List cv.Float)) (f : Found cv)
      → scan_layer cv frame layer f ≡ worker_scan_layer cv frame layer f
  unfolding scan_layer worker_scan_layer
  scan_layer-agrees frame [] f = refl
  scan_layer-agrees frame (cells ∷ layer) f = bind-ext (require (row_of cv cells)) (λ r.
      scan_layer-agrees frame layer (scan_row cv frame r f)
      ∙ ap (worker_scan_layer cv frame layer) (scan_row-agrees frame r f))

  scan-agrees :
      (frame : cv.Frame) (outs : List (List (List cv.Float))) (f : Found cv)
      → scan cv frame outs f ≡ worker_scan cv frame outs f
  unfolding scan worker_scan
  scan-agrees frame [] f = refl
  scan-agrees frame (layer ∷ outs) f =
      ap (λ m. m >>= scan cv frame outs) (scan_layer-agrees frame layer f)
      ∙ bind-ext (worker_scan_layer cv frame layer f) (scan-agrees frame outs)

  draw_pred-agrees :
      (classes : List Bytes) (k : ℕ) (conf : cv.Float) (l t r b : ℤ)
      → draw_pred cv classes k conf l t r b ≡ worker_draw_pred cv classes k conf l t r b
  unfolding draw_pred worker_draw_pred
  draw_pred-agrees [] k conf l t r b = refl
  draw_pred-agrees (c ∷ classes) k conf l t r b = refl

  report-agrees :
      (classes : List Bytes) (f : Found cv) (is : List ℕ) (result : List Bytes)
      (drawn : List Drawing)
      → report cv classes f is result drawn ≡ worker_report cv classes f is result drawn
  unfolding report worker_report
  report-agrees classes f [] result drawn = refl
  report-agrees classes f (i ∷ is) result drawn = bind-ext (at_index f.boxes i) (λ box.
      bind-ext (at_index f.class_ids i) (λ k. bind-ext (at_index classes k) (λ name.
        bind-ext (at_index f.confidences i) (λ c.
          ap (λ m. m >>= (λ more. report cv classes f is (result ++ name ∷ []) (drawn ++ more)))
            (draw_pred-agrees classes k c box.x box.y (box.x +ℤ box.width) (box.y +ℤ box.height))
          ∙ bind-ext
              (worker_draw_pred cv classes k c box.x box.y (box.x +ℤ box.width)
                (box.y +ℤ box.height))
              (λ more. report-agrees classes f is (result ++ name ∷ []) (drawn ++ more))))))

  postprocess-agrees :
      (classes : List Bytes) (frame : cv.Frame) (outs : List (List (List cv.Float)))
      (result : List Bytes)
      → postprocess cv classes frame outs result ≡ worker_postprocess cv classes frame outs result
  unfolding postprocess worker_postprocess
  postprocess-agrees classes frame outs result =
      rw (scan-agrees frame outs (record { class_ids = []; confidences = []; boxes = [] })) (
        bind-ext
          (worker_scan cv frame outs (record { class_ids = []; confidences = []; boxes = [] }))
          (λ found. report-agrees classes found _ result []))

  get_outputs_names-agrees :
      (net : cv.Net) (static_names : List Bytes)
      → get_outputs_names cv net static_names ≡ worker_get_outputs_names cv net static_names
  unfolding get_outputs_names worker_get_outputs_names
  get_outputs_names-agrees net [] =
      names_at-agrees (cv.layer_names net) (cv.unconnected_out_layers net)
  get_outputs_names-agrees net (s ∷ static_names) = refl

  emulate_classes-agrees :
      (lines : List Bytes) → emulate_classes lines ≡ worker_emulate_classes lines
  unfolding emulate_classes worker_emulate_classes
  emulate_classes-agrees [] = refl
  emulate_classes-agrees (line ∷ lines) = rw (emulate_classes-agrees lines) refl

  copy_n-agrees : (n : ℕ) (xs : List Bytes) → copy_n n xs ≡ worker_copy_n n xs
  unfolding copy_n worker_copy_n
  copy_n-agrees zero xs = refl
  copy_n-agrees (suc n) [] = refl
  copy_n-agrees (suc n) (x ∷ xs) = rw (copy_n-agrees n xs) refl

  -- Both programs' emulated detectors read the same classes from a file and report the same ones from
  -- a shuffled list, whatever the frame. And on the frame that it is given, the edge's detector does what the worker's does on a clone of that
  -- frame, with the same network, classes and static vector: the same fault, or the same names, the
  -- same drawings and the same static vector, and nothing else of the object changes.
  pub detect-agrees :
      (lines shuffled : List Bytes) (d : Dnn cv) (frame : cv.Frame) (result : List Bytes)
      → (emulate_classes lines ≡ worker_emulate_classes lines)
        × (emulate shuffled frame result ≡ worker_emulate shuffled result)
        × (detect cv d frame result ≡ (
            worker_detect cv d.net d.classes d.static_names frame result
            >>= λ (found, names, drawn). ok (found, record d { static_names = names }, drawn)))
  unfolding detect worker_detect emulate worker_emulate
  detect-agrees lines shuffled d frame result = (
    emulate_classes-agrees lines,
    rw (copy_n-agrees 10 shuffled) refl,
    rw (get_outputs_names-agrees d.net d.static_names) (
        bind-ext (require (cv.blob_from_image frame input_width input_height)) (λ blob.
          bind-ext (worker_get_outputs_names cv d.net d.static_names) (λ names.
            rw (postprocess-agrees d.classes frame (cv.forward d.net blob names) result) (
              sym (
                bind_assoc
                  (worker_postprocess cv d.classes frame (cv.forward d.net blob names) result) _
                  _)))
          ∙ sym (bind_assoc (worker_get_outputs_names cv d.net d.static_names) _ _))
        ∙ sym (bind_assoc (require (cv.blob_from_image frame input_width input_height)) _ _)),
  )
