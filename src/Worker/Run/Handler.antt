-- ===== src/Worker/Run/Handler.antt =====
-- The worker's handler keeps what is said of its store and of its packets.
use crowdsensing.Common.{
  Ensures-returns, ℕ, ◌≡◌, inr, refl, sym, ◌∙◌, subst, List, [], ◌∷◌, Bytes, All, All-append,
  Ensures, arith, codes, same,
}
use crowdsensing.Libraries.{Libraries, IsLawful}
use crowdsensing.Worker.Segments.{Worker, process_segment_interest, populate_store}
use crowdsensing.Worker.Handlers.{dispatch, requested_mode}
use crowdsensing.Worker.Image.{with_image, with_image-output, with_image-versioned, Ensures-if}
use crowdsensing.Worker.Run.Stock.{
  IsStocked, IsVersion, IsSigned, IsSigned-put, process_segment-IsStocked, populate_store-IsVersion,
}

module _ (lib : Libraries) (laws : IsLawful lib) (cd : Bytes) (now : ℕ) (seen : List Bytes)
    (image : Bytes) (interest : lib.ndn.Interest) (w : Worker lib.ndn)
    (h : IsStocked lib.ndn cd w) where
  with_image-cd : (with_image lib now seen image interest w).cd_string ≡ w.cd_string
  unfolding populate_store
  with_image-cd = ground arith

  with_image-IsStocked : IsStocked lib.ndn cd (with_image lib now seen image interest w)
  with_image-IsStocked = record {
    same_cd = with_image-cd ∙ h.same_cd;
    stock = inr (
        subst (λ v. IsVersion lib.ndn v (with_image lib now seen image interest w).store)
          (sym (with_image-versioned lib now seen image interest w))
          (populate_store-IsVersion lib.ndn laws.ndn_laws image _ refl));
    signed =
        subst (All (IsSigned lib.ndn)) (sym (with_image-output lib now seen image interest w))
          h.signed;
  }

  process-IsStocked :
      (v : Worker lib.ndn)
      → IsStocked lib.ndn cd v
      → Ensures (IsStocked lib.ndn cd) (process_segment_interest {ndn = lib.ndn} interest v)
  process-IsStocked v g =
      Ensures-returns _ _ (λ t. process_segment-IsStocked lib.ndn laws.ndn_laws cd interest v t g)

  pub dispatch-IsStocked :
      (targets : List Bytes) (sid : Bytes)
      → Ensures (IsStocked lib.ndn cd) (dispatch lib now seen image interest targets sid w)
  unfolding dispatch
  dispatch-IsStocked [] sid = h
  dispatch-IsStocked (target ∷ more) sid =
      let mode = requested_mode lib interest in
      Ensures-if (IsStocked lib.ndn cd) (same mode (codes "e")) _ _
        (record {
          same_cd = h.same_cd;
          stock = h.stock;
          signed =
              All-append (IsSigned lib.ndn) w.output _ h.signed
                (IsSigned-put lib.ndn laws.ndn_laws _, tt);
        })
        (Ensures-if (IsStocked lib.ndn cd) (same mode (codes "c")) _ _
          (Ensures-if (IsStocked lib.ndn cd) (lib.ndn.is_segment (lib.ndn.get_name interest)) _ _
            (process-IsStocked w h) (process-IsStocked _ with_image-IsStocked))
          h)
