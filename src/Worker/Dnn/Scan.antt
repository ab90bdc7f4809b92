-- ===== src/Worker/Dnn/Scan.antt =====
-- The scan of the network's output against a filter of its rows.
use crowdsensing.Common.{
  refl, true, false, suc, length, get_elem?, All, All-map, ◌<◌, ℕ, ◌≡◌, sym, ap, ◌∙◌, List, [], ◌∷◌,
  ◌++◌, map, some, ok, append_assoc, append-nil, if◌then◌else◌, arith, Bool-cases, inl, inr,
}
use crowdsensing.OpenCv.{OpenCv, IsOpenCv, Rect}
use crowdsensing.Detection.{Row, row_of, Found}
use crowdsensing.Worker.Dnn.{box_of, scan_row, scan_layer, scan, conf_threshold}

module _ (cv : OpenCv) where
  -- A row whose greatest score exceeds the threshold: the class with that score, the score, the box.
  pub record Candidate : Type 0 where
    pub class_id : ℕ
    pub confidence : cv.Float
    pub box : Rect

  abbrev pub candidate : cv.Frame → Row cv → Candidate
  candidate frame r = record {
    class_id = (cv.max_loc r.scores).1;
    confidence = (cv.max_loc r.scores).0;
    box = box_of cv frame r;
  }

  -- The candidates among the rows, in order.
  abbrev pub candidates : cv.Frame → List (Row cv) → List Candidate
  candidates frame [] = []
  candidates frame (r ∷ rs) =
      if cv.gt (cv.max_loc r.scores).0 (conf_threshold cv)
      then candidate frame r ∷ candidates frame rs
      else candidates frame rs

  -- The matrices read as rows, one behind the other.
  pub data Reads : List (List (List cv.Float)) → List (Row cv) → Type 0 where
    no_layer : Reads [] []
    next_layer :
        {outs : List (List (List cv.Float))} {rs : List (Row cv)}
        → Reads outs rs
        → Reads ([] ∷ outs) rs
    next_row :
        {layer : List (List cv.Float)} {outs : List (List (List cv.Float))} {rs : List (Row cv)}
        (cells : List cv.Float) (r : Row cv)
        → row_of cv cells ≡ some r
        → Reads (layer ∷ outs) rs
        → Reads ((cells ∷ layer) ∷ outs) (r ∷ rs)

  -- The candidates behind what the three vectors hold.
  abbrev pub extended : Found cv → List Candidate → Found cv
  extended f cs = record {
    class_ids = f.class_ids ++ map (λ c. c.class_id) cs;
    confidences = f.confidences ++ map (λ c. c.confidence) cs;
    boxes = f.boxes ++ map (λ c. c.box) cs;
  }

  extended-nil : (f : Found cv) → extended f [] ≡ f
  extended-nil f =
      ground (arith, append-nil f.class_ids, append-nil f.confidences, append-nil f.boxes)

  extended-scan_row :
      (frame : cv.Frame) (r : Row cv) (rs : List (Row cv)) (f : Found cv)
      → extended (scan_row cv frame r f) (candidates frame rs)
        ≡ extended f (candidates frame (r ∷ rs))
  extended-scan_row frame r rs f =
      elim (Bool-cases (cv.gt (cv.max_loc r.scores).0 (conf_threshold cv))) [
        | inl over ↦ rw over (simp append_assoc)
        | inr under ↦ rw under
      ]

  pub scan-candidates :
      (frame : cv.Frame) {outs : List (List (List cv.Float))} {rs : List (Row cv)}
      → Reads outs rs
      → (f : Found cv) → scan cv frame outs f ≡ ok (extended f (candidates frame rs))
  unfolding scan scan_layer
  scan-candidates frame no_layer f = ap ok (sym (extended-nil f))
  scan-candidates frame (next_layer more) f = scan-candidates frame more f
  scan-candidates frame (next_row {rs} cells r e more) f =
      rw e (scan-candidates frame more (scan_row cv frame r f))
      ∙ ap ok (extended-scan_row frame r rs f)

  -- The row's greatest score exceeds the threshold, and the candidate's class has it.
  pub record IsBest (rs : List (Row cv)) (c : Candidate) : Type 0 where
    pub row : Row cv
    pub place : ℕ
    pub of_row : get_elem? rs place ≡ some row
    pub score : get_elem? row.scores c.class_id ≡ some c.confidence
    pub greatest : All (λ y. cv.gt y c.confidence ≡ false) row.scores
    pub over : cv.gt c.confidence (conf_threshold cv) ≡ true

  later-IsBest : (r : Row cv) (rs : List (Row cv)) (c : Candidate) → IsBest rs c → IsBest (r ∷ rs) c
  later-IsBest r rs c b = record {
    row = b.row;
    place = suc b.place;
    of_row = b.of_row;
    score = b.score;
    greatest = b.greatest;
    over = b.over;
  }

  max_loc_place :
      IsOpenCv cv
      → (xs : List cv.Float) → 0 < length xs
      → get_elem? xs (cv.max_loc xs).1 ≡ some (cv.max_loc xs).0
  max_loc_place laws [] h = absurd (omega arith)
  max_loc_place laws (x ∷ xs) h = laws.max_loc-at x xs

  pub candidates-IsBest :
      IsOpenCv cv
      → (frame : cv.Frame) (rs : List (Row cv)) → All (λ r. 0 < length r.scores) rs
      → All (IsBest rs) (candidates frame rs)
  candidates-IsBest laws frame [] h = tt
  candidates-IsBest laws frame (r ∷ rs) (some_score, h) =
      let later =
        All-map (IsBest rs) (IsBest (r ∷ rs)) (later-IsBest r rs) (candidates frame rs)
          (candidates-IsBest laws frame rs h) in
      elim (Bool-cases (cv.gt (cv.max_loc r.scores).0 (conf_threshold cv))) [
        | inl over ↦ rw over (
          record {
            row = r;
            place = 0;
            of_row = refl;
            score = max_loc_place laws r.scores some_score;
            greatest = laws.max_loc-max r.scores;
            over = over;
          },
          later,
        )
        | inr under ↦ rw under later
      ]
