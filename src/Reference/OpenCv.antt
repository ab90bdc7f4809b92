-- ===== src/Reference/OpenCv.antt =====
-- A small OpenCV: a frame is the rows that the network will find on it, and every box is kept.
use crowdsensing.Common.{
  le→ltb, ℕ, zero, suc, ◌<◌, ◌≤◌, ◌*◌, ◌≡◌, refl, false, List, [], ◌∷◌, Option, none, some, codes,
  All, All-map, length, get_elem?, ltb, if◌then◌else◌, pos, arith, Bool-cases, inl, inr,
}
use crowdsensing.OpenCv.{OpenCv, IsOpenCv}

pub data Image : Type 0 where
  empty : Image
  image : List (List ℕ) → Image

abbrev rows_of : Image → Option (List (List ℕ))
rows_of empty = none
rows_of (image rows) = some rows

abbrev greatest : List ℕ → ℕ × ℕ
greatest [] = (0, 0)
greatest (x ∷ xs) = let (m, i) = greatest xs in if ltb x m then (m, suc i) else (x, 0)

abbrev below : ℕ → List ℕ
below zero = []
below (suc n) = n ∷ below n

abbrev pub cv : OpenCv
cv = record {
  Frame = Image;
  Blob = List (List ℕ);
  Float = ℕ;
  Net = ℕ;
  empty_frame = empty;
  cols = λ f. 100;
  rows = λ f. 100;
  imread = λ file. image [];
  zeros = λ r c. image [];
  of_pixels = λ bytes. some (image (bytes ∷ []));
  pixels = λ f. some (codes "jpeg");
  read_net_from_darknet = λ cfg weights. some 0;
  layer_names = λ net. codes "yolo" ∷ [];
  unconnected_out_layers = λ net. 1 ∷ [];
  blob_from_image = λ f w h. rows_of f;
  forward = λ net blob names. blob ∷ [];
  max_loc = greatest;
  gt = λ x y. ltb y x;
  tenths = λ n. n;
  scaled = λ x n. pos (x * n);
  nms_boxes = λ boxes scores s n. below (length boxes);
  format = λ x. codes "1.00";
  get_text_size = λ s. record { width = length s; height = 9; base_line = 3 };
}

greatest-at :
    (x : ℕ) (xs : List ℕ) → get_elem? (x ∷ xs) (greatest (x ∷ xs)).1 ≡ some (greatest (x ∷ xs)).0
greatest-at zero [] = refl
greatest-at (suc x) [] = ground arith
greatest-at x (y ∷ xs) = elim (Bool-cases (ltb x (greatest (y ∷ xs)).0)) [
  | inl less ↦ rw less (greatest-at y xs)
  | inr more ↦ rw more refl
]

greatest_grows :
    (x : ℕ) (xs : List ℕ) → x ≤ (greatest (x ∷ xs)).0 × (greatest xs).0 ≤ (greatest (x ∷ xs)).0
greatest_grows x xs = elim (Bool-cases (ltb x (greatest xs).0)) [
  | inl less ↦ rw less (ground arith, omega arith)
  | inr more ↦ rw more (omega arith, ground arith)
]

greatest-All : (xs : List ℕ) (b : ℕ) → (greatest xs).0 ≤ b → All (λ y. ltb b y ≡ false) xs
greatest-All [] b h = tt
greatest-All (x ∷ xs) b h =
    let (a, c) = greatest_grows x xs in (le→ltb b x (omega arith), greatest-All xs b (omega arith))

below-lt : (n : ℕ) → All (λ i. i < n) (below n)
below-lt zero = tt
below-lt (suc n) =
    (omega arith, All-map (λ i. i < n) (λ i. i < suc n) (λ i h. omega arith) (below n) (below-lt n))

pub cv-IsOpenCv : IsOpenCv cv
cv-IsOpenCv = record {
  max_loc-at = greatest-at;
  max_loc-max = λ xs. greatest-All xs (greatest xs).0 (omega arith);
  nms_boxes-lt = λ boxes scores s n h. below-lt (length boxes);
}
