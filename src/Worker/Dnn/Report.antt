-- ===== src/Worker/Dnn/Report.antt =====
-- What the detector reports, against the boxes that non-maximum suppression keeps.
use crowdsensing.Common.{
  codes, ℕ, ◌<◌, ◌≡◌, refl, sym, ◌∙◌, List, [], ◌∷◌, ◌++◌, map, Option, none, some, Bytes, ok,
  at_index-some, All, length, get_elem?, get_elem?-some, get_elem?-map, append_assoc, append-nil,
  arith, ℤ, ◌+ℤ◌, lt→ltb,
}
use mathlib.Core.Path.{ap₂}
use crowdsensing.OpenCv.{OpenCv, Drawing}
use crowdsensing.Detection.{Found}
use crowdsensing.Worker.Dnn.{label_of, draw_pred, drawings, report}
use crowdsensing.Worker.Dnn.Scan.{Candidate, extended}

module _ (cv : OpenCv) where
  -- The name of candidate number `i`.
  abbrev pub name_of : List Bytes → List (Candidate cv) → ℕ → Option Bytes
  name_of classes cs i = elim (get_elem? cs i) [
    | none ↦ none
    | some c ↦ get_elem? classes c.class_id
  ]

  label_total :
      (classes : List Bytes) (k : ℕ) (number : Bytes)
      → k < length classes
      → (label : Bytes) × (label_of cv classes k number ≡ ok label)
  label_total [] k number h = absurd (omega arith)
  label_total (c ∷ classes) k number h =
      let (name, e) = get_elem?-some (c ∷ classes) k h in
      (
        name ++ (codes ":" ++ number),
        rw (lt→ltb k (length (c ∷ classes)) h, at_index-some (c ∷ classes) k name e),
      )

  draw_total :
      (classes : List Bytes) (k : ℕ) (conf : cv.Float) (l t r b : ℤ)
      → k < length classes
      → (ds : List Drawing) × (draw_pred cv classes k conf l t r b ≡ ok ds)
  unfolding draw_pred
  draw_total classes k conf l t r b h =
      let (label, e) = label_total classes k (cv.format conf) h in
      let (name, e') = get_elem?-some classes k h in
      (drawings cv label l t r b, rw (e, at_index-some classes k name e'))

  -- The candidates as three vectors.
  abbrev pub vectors : List (Candidate cv) → Found cv
  vectors cs = extended cv (record { class_ids = []; confidences = []; boxes = [] }) cs

  -- What the loop reports, if it returns.
  pub record Reported (classes : List Bytes) (cs : List (Candidate cv)) (is : List ℕ)
      (result : List Bytes) (drawn : List Drawing) : Type 0 where
    pub names : List Bytes
    pub more : List Drawing
    pub returned :
        report cv classes (vectors cs) is result drawn ≡ ok (result ++ names, drawn ++ more)
    pub named : map some names ≡ map (name_of classes cs) is

  pub report-Reported :
      (classes : List Bytes) (cs : List (Candidate cv)) (is : List ℕ) (result : List Bytes)
      (drawn : List Drawing)
      → ((i : ℕ) (c : Candidate cv) → get_elem? cs i ≡ some c → c.class_id < length classes)
      → All (λ i. i < length cs) is
      → Reported classes cs is result drawn
  unfolding report
  report-Reported classes cs [] result drawn known below = record {
    names = [];
    more = [];
    returned = ap₂ (λ a b. ok (a, b)) (sym (append-nil result)) (sym (append-nil drawn));
    named = refl;
  }
  report-Reported classes cs (i ∷ is) result drawn known (h, below) =
      let (c, found) = get_elem?-some cs i h in
      let fits = known i c found in
      let (name, named) = get_elem?-some classes c.class_id fits in
      let (ds, draws) =
        draw_total classes c.class_id c.confidence c.box.x c.box.y (c.box.x +ℤ c.box.width)
          (c.box.y +ℤ c.box.height) fits in
      let rest = report-Reported classes cs is (result ++ name ∷ []) (drawn ++ ds) known below in
      record {
        names = name ∷ rest.names;
        more = ds ++ rest.more;
        returned =
            rw
              (
                at_index-some _ i c.box (get_elem?-map (λ (d : Candidate cv). d.box) cs i c found),
                at_index-some _ i c.class_id
                    (get_elem?-map (λ (d : Candidate cv). d.class_id) cs i c found),
                at_index-some classes c.class_id name named,
                at_index-some _ i c.confidence
                    (get_elem?-map (λ (d : Candidate cv). d.confidence) cs i c found),
                draws,
              )
              (rest.returned
                ∙ ap₂ (λ a b. ok (a, b)) (append_assoc result (name ∷ []) rest.names)
                    (append_assoc drawn ds rest.more));
        named = ap₂ ◌∷◌ (rw (found, name_of, named)) rest.named;
      }
