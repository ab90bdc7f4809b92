-- ===== src/Edge/Watch/Fetches.antt =====
-- Fetches that complete one after the other, with the network as the detector of all of them.
use crowdsensing.Common.{
  ◌<◌, ◌-◌, ◌≡◌, ◌⊎◌, inr, refl, ap, List, [], ◌∷◌, map, some, Bytes, Result, ok, err, All, length,
  get_elem?, require, bind-ok, ◌>>=◌,
}
use crowdsensing.Libraries.{Libraries}
use crowdsensing.OpenCv.{OpenCv, IsOpenCv, Drawing}
use crowdsensing.Detection.{Row}
use crowdsensing.Edge.Dnn.{Dnn}
use crowdsensing.Edge.Dnn.Agrees.{detect-agrees}
use crowdsensing.Edge.Execute as Execute
use crowdsensing.Edge.Execute.{report, contains}
use crowdsensing.Edge.Execute.Cloud as Cloud
use crowdsensing.Edge.Producer.State.{State, Executor}
use crowdsensing.Edge.Watch.{Detector, network, detect, after_fetch_complete}
use crowdsensing.Worker.Dnn.{
  detect as worker_detect, inp_width, inp_height, conf_threshold, nms_threshold,
}
use crowdsensing.Worker.Dnn.Scan.{Candidate, candidates, Reads}
use crowdsensing.Worker.Dnn.Report.{name_of}
use crowdsensing.Worker.Dnn.Seen.{IsSeen, detect-IsSeen, get_outputs_names_lem}

module _ (cv : OpenCv) where
  -- The image becomes a frame, which becomes the network's input, and each row of the network's
  -- output has one score for each class.
  pub record IsReadable (d : Dnn cv) (outputs : List Bytes) (image : Bytes) : Type 0 where
    pub frame : cv.Frame
    pub blob : cv.Blob
    pub rs : List (Row cv)
    pub shaped : cv.of_pixels image ≡ some frame
    pub made : cv.blob_from_image frame inp_width inp_height ≡ some blob
    pub reads : Reads cv (cv.forward d.net blob outputs) rs
    pub fit : All (λ r. length r.scores ≡ length d.classes) rs

  -- The names are the class names of the boxes that non-maximum suppression keeps of the candidates,
  -- in its order, each the class with the greatest score of a row, one above the threshold.
  pub record IsFound (d : Dnn cv) (outputs : List Bytes) (image : Bytes) (names : List Bytes)
      : Type 0 where
    pub readable : IsReadable d outputs image
    pub kept :
        map some names
        ≡ map (name_of cv d.classes (candidates cv readable.frame readable.rs)) (
            cv.nms_boxes
              (map (λ (c : Candidate cv). c.box) (candidates cv readable.frame readable.rs))
              (map (λ (c : Candidate cv). c.confidence) (candidates cv readable.frame readable.rs))
              (conf_threshold cv)
              (nms_threshold cv))
    pub seen : All (IsSeen cv d.classes readable.rs) names

  abbrev found_names : Result (List Bytes × List Bytes × List Drawing) → List Bytes
  found_names (ok (found, names, drawn)) = found
  found_names (err e) = []

  -- What the network finds in an image once the static vector is filled.
  abbrev pub names_in : Dnn cv → List Bytes → Bytes → List Bytes
  names_in d outputs image =
      found_names (
        require (cv.of_pixels image) >>= λ frame. worker_detect cv d.net d.classes outputs frame [])

  module _ (lib : Libraries) where
    -- Fetches that complete one after the other, with what the detector keeps.
    unfoldable pub fetches :
        (List Bytes → List Bytes)
        → List (Executor × Bytes)
        → State lib
        → Detector cv
        → Result (State lib × Detector cv)
    fetches shuffle [] s detector = ok (s, detector)
    fetches shuffle ((e, fetched) ∷ es) s detector =
        after_fetch_complete cv lib shuffle e fetched s detector >>= λ (s', detector').
        fetches shuffle es s' detector'

  module _ (laws : IsOpenCv cv) (d : Dnn cv) (outputs : List Bytes)
      (positive : All (λ n. 0 < n) (cv.unconnected_out_layers d.net))
      (named : map some outputs
        ≡ map (λ n. get_elem? (cv.layer_names d.net) (n - 1)) (cv.unconnected_out_layers d.net))
      (some_class : 0 < length d.classes) where
    -- The static vector plays no part in what is found.
    worker_detect-static :
        (static_names : List Bytes) (frame : cv.Frame)
        → (static_names ≡ []) ⊎ (static_names ≡ outputs)
        → worker_detect cv d.net d.classes static_names frame []
          ≡ worker_detect cv d.net d.classes outputs frame []
    unfolding worker_detect
    worker_detect-static static_names frame kept =
        rw
          (
            get_outputs_names_lem cv d.net static_names outputs positive named kept,
            get_outputs_names_lem cv d.net outputs outputs positive named (inr refl),
          )
          refl

    pub names_in-IsFound :
        (image : Bytes)
        → IsReadable d outputs image
        → IsFound d outputs image (names_in d outputs image)
    names_in-IsFound image r =
        let (names, drawn, done, kept, seen) =
          detect-IsSeen cv laws d.net d.classes outputs outputs r.frame r.blob r.rs [] r.made
            positive named (inr refl) some_class r.reads r.fit in
        let same : names_in d outputs image ≡ names = rw (r.shaped, done) refl in
        record { readable = r; kept = rw same kept; seen = rw same seen }

    module _ (lib : Libraries) where
      fetched_one :
          (shuffle : List Bytes → List Bytes) (e : Executor) (fetched : Bytes) (s : State lib)
          (static_names : List Bytes)
          → (static_names ≡ []) ⊎ (static_names ≡ outputs)
          → IsReadable d outputs (lib.ndn.block_value fetched)
          → after_fetch_complete cv lib shuffle e fetched s
              (network (record d { static_names = static_names }))
            ≡ (Execute.after_fetch_complete {lib = lib} (λ b. ok (names_in d outputs b)) e fetched s
                >>= λ s'. ok (s', network (record d { static_names = outputs })))
      unfolding after_fetch_complete detect Execute.after_fetch_complete report
      fetched_one shuffle e fetched s static_names kept r =
          let (_, _, agrees) =
            detect-agrees cv [] [] (record d { static_names = static_names }) r.frame [] in
          let (names, drawn, done, kept_names, seen) =
            detect-IsSeen cv laws d.net d.classes outputs outputs r.frame r.blob r.rs [] r.made
              positive named (inr refl) some_class r.reads r.fit in
          rw (r.shaped, agrees, worker_detect-static static_names r.frame kept, done) refl

      -- The fetches are done as with a detector that finds, in each image, what the network finds in
      -- it, and of the network only the static vector changes.
      pub fetches-completions :
          (shuffle : List Bytes → List Bytes) (es : List (Executor × Bytes)) (s t : State lib)
          (static_names : List Bytes)
          → (static_names ≡ []) ⊎ (static_names ≡ outputs)
          → All
              (λ image. IsReadable d outputs image)
              (map (λ (e, fetched). lib.ndn.block_value fetched) es)
          → Cloud.completions {lib = lib} (λ b. ok (names_in d outputs b)) es s ≡ ok t
          → (names : List Bytes) × (fetches lib shuffle es s
                (network (record d { static_names = static_names }))
              ≡ ok (t, network (record d { static_names = names })))
      unfolding fetches Cloud.completions
      fetches-completions shuffle [] s t static_names kept readable done =
          let same : s ≡ t = cc in
          (static_names, ap (λ u. ok (u, network (record d { static_names = static_names }))) same)
      fetches-completions shuffle ((e, fetched) ∷ es) s t static_names kept (this, later) done =
          let (u, first, rest) =
            bind-ok
              (Execute.after_fetch_complete {lib = lib} (λ b. ok (names_in d outputs b)) e fetched
                s)
              (Cloud.completions {lib = lib} (λ b. ok (names_in d outputs b)) es) t done in
          let (names, returns) = fetches-completions shuffle es u t outputs (inr refl) later rest in
          (names, rw (fetched_one shuffle e fetched s static_names kept this, first) returns)
