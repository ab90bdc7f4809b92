-- ===== src/Worker/Segments.antt =====
-- src/worker/src/worker.cpp, `populateStore` and `processSegmentInterest`: the image is cut into
-- Data packets of at most `maxSegmentSize` bytes, which Interests then ask for by number.
pub mod Cut
pub mod Serve
pub mod Fetch
pub mod Limits
use crowdsensing.Common.{
  ℕ, suc, zero, ◌+◌, ◌*◌, ◌-◌, Bool, true, false, ◌&&◌, List, [], ◌∷◌, ◌++◌, map, Option, none,
  some, Bytes, Result, ok, err, failed_assert, null_pointer, deref, length, get_elem?, set, take,
  drop, ltb, ◌==◌, if◌then◌else◌, ◌>>=◌,
}
use crowdsensing.Ndn.{Ndn}

-- `Options::maxSegmentSize`
abbrev pub max_segment_size : ℕ
max_segment_size = 8000

-- What the worker hands to the face.
pub data Reply (Interest Data : Type 0) : Type 0 where
  put : Data → Reply Interest Data
  put_nack : Interest → Reply Interest Data

-- The members of `Worker` that the handlers read or write.
pub record Worker (ndn : Ndn) : Type 0 where
  pub cd_string : Bytes
  pub name_prefix : ndn.Name
  pub versioned_prefix : ndn.Name
  pub store : List ndn.Data
  pub output : List (Reply ndn.Interest ndn.Data)

-- What `buffer` holds in round `i`: a full segment, or what is left of the image.
unfoldable pub segment : ℕ → ℕ → Bytes → Bytes
segment size i image =
    if ltb (size * (i + 1)) (length image)
    then take size (drop (size * i) image)
    else drop (size * i) image

module _ (ndn : Ndn) where
  -- The packet of segment `k`, before its content is set.
  abbrev pub empty_segment : ndn.Name → ℕ → ndn.Data
  empty_segment versioned k =
      ndn.set_freshness (ndn.set_name ndn.empty_data (ndn.append_segment versioned k)) 10000

  abbrev pub packet : ndn.Name → ℕ → Bytes → ndn.Data
  packet versioned k bytes = ndn.set_content (empty_segment versioned k) bytes

  -- The `while` loop. A round adds a packet as long as `size * i` is within the image, so the
  -- image's length is enough fuel.
  unfoldable pub populate_loop : ℕ → ℕ → ℕ → Bytes → ndn.Name → List ndn.Data → List ndn.Data
  populate_loop size zero i image versioned store = store
  populate_loop size (suc fuel) i image versioned store = elim (ltb (size * i) (length image)) [
    | true ↦ populate_loop size fuel (i + 1) image versioned (
        if ltb 0 (length (segment size i image))
        then store ++ packet versioned (length store) (segment size i image) ∷ []
        else store)
    | false ↦ store
  ]

  -- An image without a byte still has one segment.
  abbrev pub at_least_one : ndn.Name → List ndn.Data → List ndn.Data
  at_least_one versioned [] = empty_segment versioned 0 ∷ []
  at_least_one versioned (d ∷ ds) = d ∷ ds

  abbrev pub set_final_blocks : List ndn.Data → List ndn.Data
  set_final_blocks ds = map (λ d. ndn.set_final_block d (length ds - 1)) ds

module _ {ndn : Ndn} where
  unfoldable pub populate_store : Bytes → Worker ndn → Worker ndn
  unfolding populate_loop
  populate_store image w = record w {
    store = set_final_blocks ndn (
        at_least_one ndn w.versioned_prefix (
          populate_loop ndn max_segment_size (suc (length image)) 0 image w.versioned_prefix
            w.store));
  }

  -- The packet that `data` points to, as its index in `m_store`; `none` is the null pointer.
  unfoldable pub chosen : ndn.Interest → ndn.Data → Worker ndn → Option ℕ
  chosen interest first w =
      let name = ndn.get_name interest in
      if (ndn.size name == ndn.size w.versioned_prefix + 1) && ndn.is_segment name
      then (if ltb (ndn.to_segment name) (length w.store) then some (ndn.to_segment name) else none)
      else if ndn.matches_data interest first
      then some 0
      else none

  -- The packet is signed in place before the pointer is tested.
  unfoldable pub process_segment_interest : ndn.Interest → Worker ndn → Result (Worker ndn)
  unfolding chosen
  process_segment_interest interest w = elim w.store [
    | [] ↦ err failed_assert
    | first ∷ rest ↦ deref (chosen interest first w) >>= λ k. deref (get_elem? w.store k) >>= λ d.
        elim (chosen interest first w) [
          | none ↦ ok (record w { output = w.output ++ put_nack interest ∷ [] })
          | some _ ↦ ok (record w {
            store = set w.store k (ndn.sign d);
            output = w.output ++ put (ndn.sign d) ∷ [];
          })
        ]
  ]
