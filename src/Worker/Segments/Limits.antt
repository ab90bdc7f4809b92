-- ===== src/Worker/Segments/Limits.antt =====
-- The rounds of `populateStore`'s loop, and the sizes of what it makes.
use crowdsensing.Common.{
  ℕ, zero, suc, ◌+◌, ◌*◌, ◌≤◌, ◌<◌, ◌-◌, ◌≡◌, sym, ap, ◌∙◌, subst, List, [], ◌∷◌, ◌++◌, map, Bytes,
  arith, length, ltb, Bool-cases, inl, inr, ltb→lt, ltb→le, All, length-map,
}
use crowdsensing.Ndn.{Ndn, IsNdn}
use crowdsensing.Worker.Segments.{
  Worker, segment, packet, populate_loop, populate_store, max_segment_size,
}
use crowdsensing.Worker.Segments.Cut.{
  segment_bounds, packets, length-packets, populate_loop_end, populate_loop_round, segment_count,
  populate_store_lem,
}

-- The loop returns after at most as many rounds as the image has bytes left, whatever the size of a
-- segment, unless it is zero, and whatever the store holds: more fuel than that gives the same store.
pub populate_loop_ends :
    (ndn : Ndn) (size fuel i : ℕ) (image : Bytes) (v : ndn.Name) (store : List ndn.Data) (more : ℕ)
    → 0 < size
    → length image ≤ size * i + fuel
    → populate_loop ndn size (fuel + more) i image v store
      ≡ populate_loop ndn size fuel i image v store
populate_loop_ends ndn size zero i image v store more positive enough =
    populate_loop_end ndn size image v (0 + more) i store (omega arith)
    ∙ sym (populate_loop_end ndn size image v 0 i store (omega arith))
populate_loop_ends ndn size (suc fuel) i image v store more positive enough =
    elim (Bool-cases (ltb (size * i) (length image))) [
      | inl inside ↦
          let h = ltb→lt (size * i) (length image) inside in
          let next = store ++ packet ndn v (length store) (segment size i image) ∷ [] in
          ap (λ n. populate_loop ndn size n i image v store) {x = suc fuel + more}
            {y = suc (fuel + more)} (omega arith)
          ∙ populate_loop_round ndn size image v (fuel + more) i store positive h
          ∙ populate_loop_ends ndn size fuel (i + 1) image v next more positive (grind arith)
          ∙ sym (populate_loop_round ndn size image v fuel i store positive h)
      | inr out ↦
          let h = ltb→le (size * i) (length image) out in
          populate_loop_end ndn size image v (suc fuel + more) i store h
          ∙ sym (populate_loop_end ndn size image v (suc fuel) i store h)
    ]

module _ {ndn : Ndn} where
  packets-bounds :
      IsNdn ndn
      → (image : Bytes) (v : ndn.Name) (last i m : ℕ)
      → ((k : ℕ) → k < i + m → max_segment_size * k < length image)
      → All
          (λ d. (0 < length (ndn.content d)) × (length (ndn.content d) ≤ max_segment_size))
          (map (λ d. ndn.set_final_block d last) (packets ndn max_segment_size image v i m))
  packets-bounds laws image v last i zero below = tt
  packets-bounds laws image v last i (suc m) below =
      let held : ndn.content
            (ndn.set_final_block (packet ndn v i (segment max_segment_size i image)) last)
          ≡ segment max_segment_size i image =
        laws.content-set_final_block _ last ∙ laws.content-set_content _ _ in
      let (some_byte, fits) =
        segment_bounds max_segment_size (omega arith) image i (below i (omega arith)) in
      (
        (omega (arith, ap length held, some_byte), omega (arith, ap length held, fits)),
        packets-bounds laws image v last (i + 1) m (λ k h. below k (omega arith)),
      )

  -- From an empty store and an image that is not empty, `populateStore` makes the least number of
  -- segments of 8000 bytes that hold the image, and each has from 1 to 8000 bytes.
  pub populate_store-bounds :
      IsNdn ndn
      → (image : Bytes) (w : Worker ndn) → 0 < length image
      → w.store ≡ []
      → All
          (λ d. (0 < length (ndn.content d)) × (length (ndn.content d) ≤ max_segment_size))
          (populate_store image w).store
        × (length image ≤ max_segment_size * length (populate_store image w).store)
        × (max_segment_size * length (populate_store image w).store
            < length image + max_segment_size)
  populate_store-bounds laws image w some_byte e =
      let made = ap (λ (t : Worker ndn). t.store) (populate_store_lem image w some_byte e) in
      let n = segment_count (length image) in
      let count : length (populate_store image w).store ≡ n =
        ap length made
        ∙ length-map _ _
        ∙ length-packets ndn max_segment_size image w.versioned_prefix 0 n in
      (
        subst
            (All (λ d. (0 < length (ndn.content d)) × (length (ndn.content d) ≤ max_segment_size)))
            (sym made)
            (packets-bounds laws image w.versioned_prefix (n - 1) 0 n (λ k h. omega arith)),
        omega (arith, count),
        omega (arith, count),
      )
