-- ===== src/Worker/Segments/Cut.antt =====
-- The store that `populateStore` fills: how many segments there are, and what each holds.
use crowdsensing.Common.{
  ℕ, zero, suc, ◌+◌, ◌-◌, ◌*◌, ◌/◌, ◌≤◌, ◌<◌, ◌≡◌, refl, sym, ap, ◌∙◌, List, [], ◌∷◌, ◌++◌, map,
  Bytes, arith, length, length-append, length-take, length-drop, take, drop, drop-drop, drop_all,
  take-append-drop, append_assoc, append-nil, ltb, Bool-cases, inl, inr, lt→ltb, le→ltb,
}
use mathlib.Core.Path.{ap₂}
use crowdsensing.Ndn.{Ndn, IsNdn}
use crowdsensing.Worker.Segments.{
  Worker, segment, packet, populate_loop, set_final_blocks, populate_store, max_segment_size,
  at_least_one,
}

-- The texts one behind the other.
abbrev pub flatten : List Bytes → Bytes
flatten [] = []
flatten (b ∷ bs) = b ++ flatten bs

-- The segments from number `i` on, `m` of them.
abbrev pub segments : ℕ → Bytes → ℕ → ℕ → List Bytes
segments size image i zero = []
segments size image i (suc m) = segment size i image ∷ segments size image (i + 1) m

module _ (size : ℕ) (positive : 0 < size) (image : Bytes) where
  segment-append-drop :
      (i : ℕ) → segment size i image ++ drop (size * (i + 1)) image ≡ drop (size * i) image
  unfolding segment
  segment-append-drop i = elim (Bool-cases (ltb (size * (i + 1)) (length image))) [
    | inl more ↦
        rw (more, segment)
          (ap (◌++◌ (take size (drop (size * i) image))) (
              ap (λ k. drop k image) {x = size * (i + 1)} (grind arith)
              ∙ sym (drop-drop size (size * i) image))
            ∙ take-append-drop size (drop (size * i) image))
    | inr last ↦
        rw (last, segment)
          (ap (◌++◌ (drop (size * i) image)) (drop_all (size * (i + 1)) image (ground arith))
            ∙ append-nil (drop (size * i) image))
  ]

  -- A segment is not empty while the image lasts, and never above the size.
  pub segment_bounds :
      (i : ℕ)
      → size * i < length image
      → (0 < length (segment size i image)) × (length (segment size i image) ≤ size)
  unfolding segment
  segment_bounds i h =
      ground
        (arith, length-take size (drop (size * i) image), length-drop (size * i) image, mul_suc)
    where
      mul_suc : size * (i + 1) ≡ size * i + size
      mul_suc = grind arith

  flatten-segments :
      (i m : ℕ)
      → length image ≤ size * (i + m)
      → flatten (segments size image i m) ≡ drop (size * i) image
  flatten-segments i zero h = sym (drop_all (size * i) image (grind arith))
  flatten-segments i (suc m) h =
      ap (◌++◌ (segment size i image)) (flatten-segments (i + 1) m (grind arith))
      ∙ segment-append-drop i

module _ (ndn : Ndn) where
  abbrev pub packets : ℕ → Bytes → ndn.Name → ℕ → ℕ → List ndn.Data
  packets size image v i zero = []
  packets size image v i (suc m) =
      packet ndn v i (segment size i image) ∷ packets size image v (i + 1) m

  pub populate_loop_end :
      (size : ℕ) (image : Bytes) (v : ndn.Name) (fuel i : ℕ) (store : List ndn.Data)
      → length image ≤ size * i
      → populate_loop ndn size fuel i image v store ≡ store
  unfolding populate_loop
  populate_loop_end size image v zero i store h = refl
  populate_loop_end size image v (suc fuel) i store h =
      rw (le→ltb (size * i) (length image) h, populate_loop)

  pub populate_loop_round :
      (size : ℕ) (image : Bytes) (v : ndn.Name) (fuel i : ℕ) (store : List ndn.Data)
      → 0 < size
      → size * i < length image
      → populate_loop ndn size (suc fuel) i image v store
        ≡ populate_loop ndn size fuel
            (i + 1)
            image
            v
            (store ++ packet ndn v (length store) (segment size i image) ∷ [])
  unfolding populate_loop
  populate_loop_round size image v fuel i store pos h = rw (
    lt→ltb (size * i) (length image) h,
    populate_loop,
    lt→ltb 0 (length (segment size i image)) (segment_bounds size pos image i h).0,
  )

  -- With a round of fuel for each segment the loop adds all of them, in order.
  populate_loop-packets :
      (size : ℕ) (image : Bytes) (v : ndn.Name) (fuel i m : ℕ) (store : List ndn.Data)
      → 0 < size
      → ((k : ℕ) → k < i + m → size * k < length image)
      → length image ≤ size * (i + m)
      → m ≤ fuel
      → length store ≡ i
      → populate_loop ndn size fuel i image v store ≡ store ++ packets size image v i m
  populate_loop-packets size image v fuel i zero store pos below above enough count =
      populate_loop_end size image v fuel i store (grind arith) ∙ sym (append-nil store)
  populate_loop-packets size image v zero i (suc m) store pos below above enough count =
      absurd (omega arith)
  populate_loop-packets size image v (suc fuel) i (suc m) store pos below above enough count =
      populate_loop_round size image v fuel i store pos (below i (omega arith))
      ∙ populate_loop-packets size image v fuel (i + 1) m
          (store ++ packet ndn v (length store) (segment size i image) ∷ []) pos
          (λ k h. below k (omega arith)) (grind arith) (omega arith)
          (omega
            (arith, length-append store (packet ndn v (length store) (segment size i image) ∷ [])))
      ∙ append_assoc store (packet ndn v (length store) (segment size i image) ∷ [])
          (packets size image v (i + 1) m)
      ∙ ap (λ k. store ++ packet ndn v k (segment size i image) ∷ packets size image v (i + 1) m)
          count

  pub length-packets :
      (size : ℕ) (image : Bytes) (v : ndn.Name) (i m : ℕ) → length (packets size image v i m) ≡ m
  length-packets size image v i zero = refl
  length-packets size image v i (suc m) = ap suc (length-packets size image v (i + 1) m)

-- `m` pieces of a text, each as long as the size allows.
abbrev pub chunks : ℕ → ℕ → Bytes → List Bytes
chunks size zero xs = []
chunks size (suc m) xs = take size xs ∷ chunks size m (drop size xs)

take_all : (n : ℕ) (xs : Bytes) → length xs ≤ n → take n xs ≡ xs
take_all zero [] h = refl
take_all zero (x ∷ xs) h = absurd (omega arith)
take_all (suc n) [] h = refl
take_all (suc n) (x ∷ xs) h = ap (◌∷◌ x) (take_all n xs (omega arith))

segment-take :
    (size i : ℕ) (image : Bytes) → segment size i image ≡ take size (drop (size * i) image)
unfolding segment
segment-take size i image = elim (Bool-cases (ltb (size * (i + 1)) (length image))) [
  | inl more ↦ rw (more, segment) refl
  | inr last ↦
      let mul_suc : size * (i + 1) ≡ size * i + size = grind arith in
      rw (last, segment)
        (sym (
          take_all size (drop (size * i) image)
            (ground (arith, length-drop (size * i) image, mul_suc))))
]

segments-chunks :
    (size : ℕ) (image : Bytes) (i m : ℕ)
    → segments size image i m ≡ chunks size m (drop (size * i) image)
segments-chunks size image i zero = refl
segments-chunks size image i (suc m) = ap₂ ◌∷◌ (segment-take size i image) (
    segments-chunks size image (i + 1) m
    ∙ ap (chunks size m) (
        ap (λ k. drop k image) {x = size * (i + 1)} (grind arith)
        ∙ sym (drop-drop size (size * i) image)))

module _ (ndn : Ndn) where
  -- The packets with these contents, numbered from `i`.
  abbrev pub numbered : ndn.Name → ℕ → List Bytes → List ndn.Data
  numbered v i [] = []
  numbered v i (c ∷ cs) = packet ndn v i c ∷ numbered v (i + 1) cs

  packets-numbered :
      (size : ℕ) (image : Bytes) (v : ndn.Name) (i m : ℕ)
      → packets ndn size image v i m ≡ numbered v i (segments size image i m)
  packets-numbered size image v i zero = refl
  packets-numbered size image v i (suc m) =
      ap (◌∷◌ (packet ndn v i (segment size i image))) (packets-numbered size image v (i + 1) m)

-- How many segments an image of `n` bytes needs: `n` over the size, rounded up.
abbrev pub segment_count : ℕ → ℕ
segment_count n = (n + (max_segment_size - 1)) / max_segment_size

at_least_one_lem :
    (ndn : Ndn) (v : ndn.Name) (ds : List ndn.Data) → 0 < length ds → at_least_one ndn v ds ≡ ds
at_least_one_lem ndn v [] h = absurd (omega arith)
at_least_one_lem ndn v (d ∷ ds) h = refl

module _ {ndn : Ndn} where
  -- From an empty store and an image that is not empty, `populateStore` makes the packets of the
  -- image's segments, in order and numbered from 0, each with the last number as its final block.
  pub populate_store_lem :
      (image : Bytes) (w : Worker ndn)
      → 0 < length image
      → w.store ≡ []
      → populate_store image w ≡ record w {
        store =
            map
              (λ d. ndn.set_final_block d (segment_count (length image) - 1))
              (packets ndn max_segment_size image w.versioned_prefix 0
                (segment_count (length image)));
      }
  unfolding populate_store
  populate_store_lem image w h e =
      let v = w.versioned_prefix in
      let count = segment_count (length image) in
      let ps = packets ndn max_segment_size image v 0 count in
      let filled =
        populate_loop-packets ndn max_segment_size image v (suc (length image)) 0 count w.store
          (omega arith) (λ k hk. omega arith) (omega arith) (omega arith) (ap length e)
        ∙ ap (λ ds. ds ++ ps) e in
      ap (λ ds. record w { store = set_final_blocks ndn (at_least_one ndn v ds) }) filled
      ∙ ap (λ ds. record w { store = set_final_blocks ndn ds })
          (at_least_one_lem ndn v ps
            (omega (arith, length-packets ndn max_segment_size image v 0 count)))
      ∙ ap (λ n. record w { store = map (λ d. ndn.set_final_block d (n - 1)) ps })
          (length-packets ndn max_segment_size image v 0 count)

  pub contents-packets :
      IsNdn ndn
      → (image : Bytes) (v : ndn.Name) (last i m : ℕ)
      → map ndn.content
          (map (λ d. ndn.set_final_block d last) (packets ndn max_segment_size image v i m))
        ≡ segments max_segment_size image i m
  contents-packets laws image v last i zero = refl
  contents-packets laws image v last i (suc m) =
      ap₂ ◌∷◌ (laws.content-set_final_block _ last ∙ laws.content-set_content _ _)
        (contents-packets laws image v last (i + 1) m)

  -- The contents of the segments, one behind the other, are the image.
  pub image_stored :
      IsNdn ndn
      → (image : Bytes) (w : Worker ndn) → 0 < length image
      → w.store ≡ []
      → flatten (map ndn.content (populate_store image w).store) ≡ image
  image_stored laws image w h e =
      ap (λ (t : Worker ndn). flatten (map ndn.content t.store)) (populate_store_lem image w h e)
      ∙ ap flatten
          (contents-packets laws image w.versioned_prefix _ 0 (segment_count (length image)))
      ∙ flatten-segments max_segment_size (omega arith) image 0 (segment_count (length image))
          (omega arith)

  -- From an empty store and an image that is not empty, `populateStore` makes packets numbered from
  -- 0, as many as the image has pieces of 8000 bytes, the last one perhaps shorter: the first holds
  -- the first 8000 bytes of the image, and each further one the first 8000 of what is left. Each has
  -- the last number as its final block.
  pub populate_store-chunks :
      (image : Bytes) (w : Worker ndn)
      → 0 < length image
      → w.store ≡ []
      → populate_store image w ≡ record w {
        store =
            map
              (λ d. ndn.set_final_block d (segment_count (length image) - 1))
              (numbered ndn w.versioned_prefix 0
                (chunks max_segment_size (segment_count (length image)) image));
      }
  populate_store-chunks image w h e =
      let count = segment_count (length image) in
      populate_store_lem image w h e
      ∙ ap (λ ds. record w { store = map (λ d. ndn.set_final_block d (count - 1)) ds })
          (packets-numbered ndn max_segment_size image w.versioned_prefix 0 count
            ∙ ap (numbered ndn w.versioned_prefix 0)
                (segments-chunks max_segment_size image 0 count))
