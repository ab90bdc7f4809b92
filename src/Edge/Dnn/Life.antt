-- ===== src/Edge/Dnn/Life.antt =====
-- The object of the edge's detector from its constructor to its destructor.
use crowdsensing.Common.{
  inr, inl, ◌≡◌, refl, ◌∙◌, sym, ap, List, [], ◌∷◌, none, Bytes, ok, err, bind-ok,
  indeterminate_value, ◌>>=◌, Option-cases, Result, require, codes,
}
use crowdsensing.OpenCv.{Drawing, OpenCv}
use crowdsensing.Edge.Dnn.{
  Drawing, Dnn, dnn, destroy, detect, input_width, input_height, get_outputs_names, postprocess,
}

module _ (cv : OpenCv) where
  -- The detections of some frames, one behind the other, each for an empty vector.
  abbrev pub detections : List cv.Frame → Dnn cv → Result (Dnn cv)
  detections [] d = ok d
  detections (f ∷ fs) d = detect cv d f [] >>= λ (found, d', drawn). detections fs d'

  dnn-run :
      (dummy_file : Bytes) (lines : List Bytes) (d : Dnn cv)
      → dnn cv dummy_file lines ≡ ok d
      → d.run ≡ none
  unfolding dnn
  dnn-run f lines d e =
      elim (Option-cases (
        cv.read_net_from_darknet (codes "./config/yolov3.cfg") (codes "./config/yolov3.weights"))) [
          | inl missing ↦ let e' = rw (missing, dnn) at e in cc
          | inr (net, read) ↦ let e' = rw (read, dnn) at e in cc
        ]

  detect-run :
      (d : Dnn cv) (f : cv.Frame) (result : List Bytes) (x : List Bytes × Dnn cv × List Drawing)
      → detect cv d f result ≡ ok x
      → x.1.run ≡ d.run
  unfolding detect
  detect-run d f result x e =
      let (blob, made, e1) =
        bind-ok (require (cv.blob_from_image f input_width input_height)) _ x e in
      let (names, named, e2) = bind-ok (get_outputs_names cv d.net d.static_names) _ x e1 in
      let (y, done, e3) =
        bind-ok (postprocess cv d.classes f (cv.forward d.net blob names) result)
          (λ (found, drawn). ok (found, record d { static_names = names }, drawn)) x e2 in
      let same : (y.0, record d { static_names = names }, y.1) ≡ x = cc in
      sym (ap (λ (x : List Bytes × Dnn cv × List Drawing). x.1.run) same)

  detections-run : (fs : List cv.Frame) (d d' : Dnn cv) → detections fs d ≡ ok d' → d'.run ≡ d.run
  detections-run [] d d' e = let same : d ≡ d' = cc in ap (λ (x : Dnn cv). x.run) (sym same)
  detections-run (f ∷ fs) d d' e =
      let (x, done, e') =
        bind-ok (detect cv d f []) (λ (found, d', drawn). detections fs d') d' e in
      detections-run fs x.1 d' e' ∙ detect-run d f [] x done

  -- Neither the constructor of the edge's detector nor a detection writes `m_run`: after any number
  -- of detections that return, the destructor reads an indeterminate value.
  pub destroy-detections :
      (dummy_file : Bytes) (lines : List Bytes) (fs : List cv.Frame) (d d' : Dnn cv)
      → dnn cv dummy_file lines ≡ ok d
      → detections fs d ≡ ok d'
      → destroy cv d' ≡ err indeterminate_value
  unfolding destroy
  destroy-detections f lines fs d d' made done =
      rw (detections-run fs d d' done ∙ dnn-run f lines d made) refl
