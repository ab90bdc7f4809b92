-- ===== src/Worker/Dnn/Seen.antt =====
-- What a frame's detection reports: the names of the boxes that are kept, each of a class that the
-- network is sure enough of.
use crowdsensing.Common.{
  ◌⊎◌, ap, refl, ◌-◌, at_index-some, lt→ltb, refl, get_elem?-lt, All-get_elem?, All-map,
  Option-cases, inl, inr, ℕ, ◌<◌, ◌≡◌, refl, sym, ◌∙◌, subst, List, [], ◌∷◌, ◌++◌, map, some, Bytes,
  ok, at_index-some, All, All-map, length, length-map, get_elem?, get_elem?-lt, arith, inl, inr,
  lt→ltb,
}
use crowdsensing.OpenCv.{OpenCv, IsOpenCv, Drawing}
use crowdsensing.Detection.{Row}
use crowdsensing.Worker.Dnn.{postprocess, conf_threshold, nms_threshold}
use crowdsensing.Worker.Dnn.Scan.{
  Candidate, candidates, IsBest, candidates-IsBest, Reads, scan-candidates,
}
use crowdsensing.Worker.Dnn.{get_outputs_names, names_at, detect, inp_width, inp_height}
use crowdsensing.Worker.Dnn.Report.{name_of, report-Reported}
use crowdsensing.Worker.Dnn.{names_at}

module _ (cv : OpenCv) where
  -- The name of a class that has the greatest score of some row, one above the threshold.
  pub record IsSeen (classes : List Bytes) (rs : List (Row cv)) (name : Bytes) : Type 0 where
    pub candidate : Candidate cv
    pub best : IsBest cv rs candidate
    pub named : get_elem? classes candidate.class_id ≡ some name

  -- Every class that the scores of a row may name is known.
  IsBest-known :
      (classes : List Bytes) (rs : List (Row cv)) (c : Candidate cv)
      → All (λ r. length r.scores ≡ length classes) rs
      → IsBest cv rs c
      → c.class_id < length classes
  IsBest-known classes rs c fit b = omega (
    arith,
    get_elem?-lt b.row.scores c.class_id c.confidence b.score,
    All-get_elem? (λ (r : Row cv). length r.scores ≡ length classes) rs b.place b.row fit b.of_row,
  )

  name_of-IsSeen :
      (classes : List Bytes) (rs : List (Row cv)) (cs : List (Candidate cv)) (i : ℕ) (name : Bytes)
      → All (IsBest cv rs) cs
      → name_of cv classes cs i ≡ some name
      → IsSeen classes rs name
  name_of-IsSeen classes rs cs i name best e = elim (Option-cases (get_elem? cs i)) [
    | inl out ↦ let e' = rw (out, name_of) at e in cc
    | inr (c, found) ↦ record {
      candidate = c;
      best = All-get_elem? (IsBest cv rs) cs i c best found;
      named = rw (found, name_of) at e;
    }
  ]

  names-IsSeen :
      (classes : List Bytes) (rs : List (Row cv)) (cs : List (Candidate cv)) (is : List ℕ)
      (names : List Bytes)
      → All (IsBest cv rs) cs
      → map some names ≡ map (name_of cv classes cs) is
      → All (IsSeen classes rs) names
  names-IsSeen classes rs cs is [] best e = tt
  names-IsSeen classes rs cs [] (name ∷ names) best e = cc
  names-IsSeen classes rs cs (i ∷ is) (name ∷ names) best e =
      (name_of-IsSeen classes rs cs i name best (cc), names-IsSeen classes rs cs is names best (cc))

  -- The names that are kept are reported behind the caller's, in the order of the indices.
  pub postprocess_lem :
      IsOpenCv cv
      → (classes : List Bytes) (frame : cv.Frame) (outs : List (List (List cv.Float)))
        (rs : List (Row cv)) (result : List Bytes)
      → 0 < length classes
      → Reads cv outs rs
      → All (λ r. length r.scores ≡ length classes) rs
      → (names : List Bytes) × (drawn : List Drawing) × (postprocess cv classes frame outs result
          ≡ ok (result ++ names, drawn))
        × (map some names
            ≡ map (name_of cv classes (candidates cv frame rs)) (
                cv.nms_boxes
                  (map (λ (c : Candidate cv). c.box) (candidates cv frame rs))
                  (map (λ (c : Candidate cv). c.confidence) (candidates cv frame rs))
                  (conf_threshold cv)
                  (nms_threshold cv)))
        × All (IsSeen classes rs) names
  unfolding postprocess
  postprocess_lem laws classes frame outs rs result some_class reads fit =
      let cs = candidates cv frame rs in
      let boxes = map (λ (c : Candidate cv). c.box) cs in
      let scores = map (λ (c : Candidate cv). c.confidence) cs in
      let best = candidates-IsBest cv laws frame rs (
        All-map (λ (r : Row cv). length r.scores ≡ length classes)
          (λ (r : Row cv). 0 < length r.scores) (λ r e. omega arith) rs fit) in
      let below = laws.nms_boxes-lt boxes scores (conf_threshold cv) (nms_threshold cv) (
        length-map (λ (c : Candidate cv). c.confidence) cs
        ∙ sym (length-map (λ (c : Candidate cv). c.box) cs)) in
      let r =
        report-Reported cv classes cs
          (cv.nms_boxes boxes scores (conf_threshold cv) (nms_threshold cv)) result []
          (λ i c e. IsBest-known classes rs c fit (All-get_elem? (IsBest cv rs) cs i c best e))
          (subst
            (λ n.
              All (λ i. i < n) (cv.nms_boxes boxes scores (conf_threshold cv) (nms_threshold cv)))
            (length-map (λ (c : Candidate cv). c.box) cs) below) in
      (
        r.names,
        r.more,
        rw
            (scan-candidates cv frame reads
              (record { class_ids = []; confidences = []; boxes = [] }))
            r.returned,
        r.named,
        names-IsSeen classes rs cs _ r.names best r.named,
      )

  outputs_names_lem :
      (layers : List Bytes) (ns : List ℕ) (names : List Bytes)
      → All (λ n. 0 < n) ns
      → map some names ≡ map (λ n. get_elem? layers (n - 1)) ns
      → names_at layers ns ≡ ok names
  unfolding names_at
  outputs_names_lem layers [] [] h e = refl
  outputs_names_lem layers [] (name ∷ names) h e = cc
  outputs_names_lem layers (n ∷ ns) [] h e = cc
  outputs_names_lem layers (n ∷ ns) (name ∷ names) (positive, h) e = rw (
    lt→ltb 0 n positive,
    at_index-some layers (n - 1) name (cc),
    outputs_names_lem layers ns names h (cc),
  )

  -- The first call finds the names of the outputs, and later calls find them kept.
  pub get_outputs_names_lem :
      (net : cv.Net) (static_names names : List Bytes)
      → All (λ n. 0 < n) (cv.unconnected_out_layers net)
      → map some names
        ≡ map (λ n. get_elem? (cv.layer_names net) (n - 1)) (cv.unconnected_out_layers net)
      → (static_names ≡ []) ⊎ (static_names ≡ names)
      → get_outputs_names cv net static_names ≡ ok names
  unfolding get_outputs_names
  get_outputs_names_lem net [] names h e kept =
      outputs_names_lem (cv.layer_names net) (cv.unconnected_out_layers net) names h e
  get_outputs_names_lem net (s ∷ static_names) names h e (inl empty) = cc
  get_outputs_names_lem net (s ∷ static_names) names h e (inr same) = ap ok same

  -- Let the frame become the network's input, the network number its unconnected outputs from 1 and
  -- name each of them, the static vector be empty or hold these names, there be classes, and each
  -- row of the output have one score for each class. Then `detect` returns, keeps the outputs' names,
  -- and adds to the caller's vector the class names of the boxes that non-maximum suppression keeps
  -- of the candidates, in its order, where each name belongs to a row whose greatest score exceeds
  -- the threshold and is the class with that score.
  pub detect-IsSeen :
      IsOpenCv cv
      → (net : cv.Net) (classes static_names outputs : List Bytes) (frame : cv.Frame)
        (blob : cv.Blob) (rs : List (Row cv)) (result : List Bytes)
      → cv.blob_from_image frame inp_width inp_height ≡ some blob
      → All (λ n. 0 < n) (cv.unconnected_out_layers net)
      → map some outputs
        ≡ map (λ n. get_elem? (cv.layer_names net) (n - 1)) (cv.unconnected_out_layers net)
      → (static_names ≡ []) ⊎ (static_names ≡ outputs)
      → 0 < length classes
      → Reads cv (cv.forward net blob outputs) rs
      → All (λ r. length r.scores ≡ length classes) rs
      → (names : List Bytes) × (drawn : List Drawing) × (detect cv net classes static_names frame
            result
          ≡ ok (result ++ names, outputs, drawn))
        × (map some names
            ≡ map (name_of cv classes (candidates cv frame rs)) (
                cv.nms_boxes
                  (map (λ (c : Candidate cv). c.box) (candidates cv frame rs))
                  (map (λ (c : Candidate cv). c.confidence) (candidates cv frame rs))
                  (conf_threshold cv)
                  (nms_threshold cv)))
        × All (IsSeen classes rs) names
  unfolding detect
  detect-IsSeen laws net classes static_names outputs frame blob rs result made positive named kept
        some_class reads fit =
      let (names, drawn, done, kept_names, seen) =
        postprocess_lem laws classes frame (cv.forward net blob outputs) rs result some_class reads
          fit in
      (
        names,
        drawn,
        rw (made, get_outputs_names_lem net static_names outputs positive named kept, done),
        kept_names,
        seen,
      )
