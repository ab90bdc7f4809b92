-- ===== src/Worker/Dispatch.antt =====
-- The worker's handler in cloud mode: what an Interest with a readable name is passed on to.
use crowdsensing.Common.{
  ℕ, ◌≡◌, ◌≢◌, refl, ◌∙◌, true, false, List, [], ◌∷◌, ◌++◌, none, Bytes, ok, arith, Lacks, back,
  codes, inl, inr,
}
use crowdsensing.Libraries.{Libraries, IsLawful}
use crowdsensing.Boost.{Boost, IsBoost}
use crowdsensing.Boost.Split.{back-split, pop_back-split}
use crowdsensing.Worker.Names.{decode_uri, extract_targets, extract_session_id}
use crowdsensing.Worker.Segments.{Worker, process_segment_interest}
use crowdsensing.Worker.Segments.Serve.{List-cases}
use crowdsensing.Worker.Handlers.{on_interest, dispatch}
use crowdsensing.Worker.Image.{with_image}

-- A name with a slash, as both programs' names have.
abbrev pub HasSlash : (lib : Libraries) → lib.ndn.Interest → Type 0
HasSlash lib interest =
    (p c : Bytes) × Lacks b'/' c
    × (decode_uri lib.boost (lib.ndn.to_uri (lib.ndn.get_name interest)) ≡ p ++ (b'/' ∷ c))

-- An Interest, and what the clock, the detector and the camera show when it arrives.
pub record Arrival (lib : Libraries) : Type 0 where
  pub now : ℕ
  pub seen : List Bytes
  pub image : Bytes
  pub interest : lib.ndn.Interest

back_total : (xs : List Bytes) → xs ≢ [] → (x : Bytes) × (back xs ≡ ok x)
back_total [] ne = absurd (ne refl)
back_total (x ∷ []) ne = (x, refl)
back_total (x ∷ y ∷ ys) ne = back_total (y ∷ ys) (λ z. cc)

module _ (b : Boost) (laws : IsBoost b) where
  extract_targets_total :
      (p c : Bytes)
      → Lacks b'/' c
      → (t : Bytes) × (ts : List Bytes) × (extract_targets b (p ++ (b'/' ∷ c)) ≡ ok (t ∷ ts))
  unfolding extract_targets
  extract_targets_total p c h =
      let (keyword, e1) = back_total (b.split p b'/') (laws.split-ne-nil p b'/') in
      let (material, e2) = back_total (b.split keyword b' ') (laws.split-ne-nil keyword b' ') in
      let (last, e3) = back_total (b.split material b':') (laws.split-ne-nil material b':') in
      let bare = b.replace_all (b.replace_all last (codes "[") []) (codes "]") [] in
      elim (List-cases (b.split bare b',')) [
        | inl e ↦ absurd (laws.split-ne-nil bare b',' e)
        | inr (t, ts, e) ↦ (t, ts, rw (pop_back-split b laws b'/' p c h, e1, e2, e3, e))
      ]

  extract_session_id_total :
      (p c : Bytes) → Lacks b'/' c → extract_session_id b (p ++ (b'/' ∷ c)) ≡ ok c
  unfolding extract_session_id
  extract_session_id_total p c h = back-split b laws b'/' p c h

module _ {lib : Libraries} (laws : IsLawful lib) (a : Arrival lib) (slash : HasSlash lib a.interest)
    (cloud : lib.ndn.parameters a.interest ≡ none) (w : Worker lib.ndn) where
  dispatched :
      (t : Bytes) × (ts : List Bytes) × (sid : Bytes) × (on_interest lib a.now a.seen a.image
          a.interest w
        ≡ dispatch lib a.now a.seen a.image a.interest (t ∷ ts) sid w)
  unfolding on_interest
  dispatched =
      let (p, c, h, e) = slash in
      let (t, ts, got) = extract_targets_total lib.boost laws.boost_laws p c h in
      (t, ts, c, rw (e, got, extract_session_id_total lib.boost laws.boost_laws p c h))

  pub segment_dispatched :
      lib.ndn.is_segment (lib.ndn.get_name a.interest) ≡ true
      → on_interest lib a.now a.seen a.image a.interest w
        ≡ process_segment_interest {ndn = lib.ndn} a.interest w
  unfolding dispatch
  segment_dispatched is_segment =
      let (t, ts, sid, e) = dispatched in e ∙ ground (arith, cloud, is_segment)

  pub image_dispatched :
      lib.ndn.is_segment (lib.ndn.get_name a.interest) ≡ false
      → on_interest lib a.now a.seen a.image a.interest w
        ≡ process_segment_interest {ndn = lib.ndn} a.interest
            (with_image lib a.now a.seen a.image a.interest w)
  unfolding dispatch
  image_dispatched not_segment =
      let (t, ts, sid, e) = dispatched in e ∙ ground (arith, cloud, not_segment)
