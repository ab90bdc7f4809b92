-- ===== src/Worker/Image.antt =====
-- The packets that the worker's handler puts, and the store that an Interest for an image leaves.
use crowdsensing.Common.{
  ℕ, Bool, if◌then◌else◌, subst, ◌≡◌, ◌⊎◌, inl, inr, refl, ◌∙◌, true, false, List, [], ◌∷◌, ◌++◌,
  Bytes, Result, ok, err, Ensures, Ensures-bind, Ensures-any, Ensures-ok, codes, arith, same,
}
use crowdsensing.Libraries.{Libraries}
use crowdsensing.Ndn.{Ndn}
use crowdsensing.Worker.Names.{decode_uri, extract_targets, extract_session_id}
use crowdsensing.Worker.Segments.{Worker, Reply, put, process_segment_interest, populate_store}
use crowdsensing.Worker.Segments.Serve.{process_segment_puts}
use crowdsensing.Worker.Handlers.{on_interest, dispatch, requested_mode, versioned, detection_reply}

-- At most one packet more than `out`, and no Nack.
abbrev pub PutsOne : (ndn : Ndn) → List (Reply ndn.Interest ndn.Data) → Worker ndn → Type 0
PutsOne ndn out t = (t.output ≡ out) ⊎ ((d : ndn.Data) × (t.output ≡ out ++ put d ∷ []))

pub Ensures-if {ℓ κ} :
    {A : Type ℓ} (P : A → Type κ) (c : Bool) (x y : Result A)
    → Ensures P x
    → Ensures P y
    → Ensures P (if c then x else y)
Ensures-if P true x y hx hy = hx
Ensures-if P false x y hx hy = hy

process_segment-PutsOne :
    (ndn : Ndn) (interest : ndn.Interest) (w : Worker ndn)
    → Ensures (PutsOne ndn w.output) (process_segment_interest {ndn = ndn} interest w)
process_segment-PutsOne ndn interest w = go (process_segment_interest {ndn = ndn} interest w) refl
  where
    go :
        (r : Result (Worker ndn))
        → process_segment_interest {ndn = ndn} interest w ≡ r
        → Ensures (PutsOne ndn w.output) r
    go (ok t) e = inr (process_segment_puts {ndn = ndn} interest w t e)
    go (err f) e = tt

populate_store-output :
    (ndn : Ndn) (image : Bytes) (w : Worker ndn) → (populate_store image w).output ≡ w.output
unfolding populate_store
populate_store-output ndn image w = refl

module _ (lib : Libraries) (now : ℕ) (seen : List Bytes) (image : Bytes)
    (interest : lib.ndn.Interest) (w : Worker lib.ndn) where
  -- The worker whose store holds the image, in segments of a new version.
  abbrev pub with_image : Worker lib.ndn
  with_image =
      populate_store image (record (versioned lib now (lib.ndn.get_name interest) w) { store = [] })

  pub with_image-versioned :
      with_image.versioned_prefix
      ≡ (versioned lib now (lib.ndn.get_name interest) w).versioned_prefix
  with_image-versioned = unfold populate_store in refl

  pub with_image-output : with_image.output ≡ w.output
  with_image-output = populate_store-output lib.ndn image _ ∙ ground arith

  dispatch-PutsOne :
      (targets : List Bytes) (sid : Bytes)
      → Ensures (PutsOne lib.ndn w.output) (dispatch lib now seen image interest targets sid w)
  unfolding dispatch
  dispatch-PutsOne [] sid = inl refl
  dispatch-PutsOne (target ∷ more) sid =
      let one : PutsOne lib.ndn w.output (record w {
        output = w.output ++ put (detection_reply lib interest seen target sid w) ∷ [];
      }) =
        inr (detection_reply lib interest seen target sid w, refl) in
      let stored =
        subst
          (λ out.
            Ensures (PutsOne lib.ndn out)
              (process_segment_interest {ndn = lib.ndn} interest with_image))
          with_image-output (process_segment-PutsOne lib.ndn interest with_image) in
      let none_more : PutsOne lib.ndn w.output w = inl refl in
      let mode = requested_mode lib interest in
      Ensures-if (PutsOne lib.ndn w.output) (same mode (codes "e")) _ _ one (
        Ensures-if (PutsOne lib.ndn w.output) (same mode (codes "c")) _ _
          (Ensures-if (PutsOne lib.ndn w.output) (lib.ndn.is_segment (lib.ndn.get_name interest)) _
            _ (process_segment-PutsOne lib.ndn interest w) stored)
          none_more)

  on_interest-PutsOne :
      Ensures (PutsOne lib.ndn w.output) (on_interest lib now seen image interest w)
  unfolding on_interest
  on_interest-PutsOne =
      let uri = decode_uri lib.boost (lib.ndn.to_uri (lib.ndn.get_name interest)) in
      Ensures-bind (λ a. Unit {0}) (PutsOne lib.ndn w.output) (extract_targets lib.boost uri) _
        (Ensures-any (extract_targets lib.boost uri))
        (λ targets u.
          Ensures-bind (λ a. Unit {0}) (PutsOne lib.ndn w.output) (extract_session_id lib.boost uri)
            _ (Ensures-any (extract_session_id lib.boost uri))
            (λ sid u'. dispatch-PutsOne targets sid))

  -- Whatever the Interest and its mode, a call of the worker's handler that returns has put at most
  -- one Data packet, and no Nack.
  pub on_interest_puts :
      (t : Worker lib.ndn)
      → on_interest lib now seen image interest w ≡ ok t
      → (t.output ≡ w.output) ⊎ ((d : lib.ndn.Data) × (t.output ≡ w.output ++ put d ∷ []))
  on_interest_puts t done =
      Ensures-ok (PutsOne lib.ndn w.output) (on_interest lib now seen image interest w) t
        on_interest-PutsOne done
