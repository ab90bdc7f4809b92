-- ===== src/Worker/Run/Serving.antt =====
-- What holds of the worker's threads, its store and its packets for as long as it runs.
use crowdsensing.Common.{
  ℕ, ◌≡◌, ◌⊎◌, inl, refl, sym, ◌∙◌, List, [], Bytes, ok, All, arith, Ensures, Ensures-bind,
  Ensures-any, Ensures-ok, require, if◌then◌else◌,
}
use crowdsensing.Asio.{Asio, IsAsio}
use crowdsensing.Libraries.{Libraries, IsLawful}
use crowdsensing.OpenCv.{OpenCv}
use crowdsensing.Worker.Names.{decode_uri, extract_targets, extract_session_id}
use crowdsensing.Worker.Segments.{Worker}
use crowdsensing.Worker.Handlers.{on_register_failed, requested_mode, dispatch}
use crowdsensing.Worker.Watch.{Detector, on_interest, detect, return_mat, detects, takes_image}
use crowdsensing.Worker.Run.{
  worker, Program, enter, Step, Runs, emulation_begins, network_begins, steps, looping, joins_timer,
  registers, register_fails, receives, captures, face_ends, timer_ends, timer_joined, ndn_joined,
}
use crowdsensing.Worker.Run.Stock.{IsStocked, IsVersion, IsSigned}
use crowdsensing.Worker.Run.Handler.{dispatch-IsStocked}

module _ (cv : OpenCv) (lib : Libraries) (laws : IsLawful lib) (cd : Bytes) where
  -- Whatever the detector does.
  on_interest-IsStocked :
      (shuffle : List Bytes → List Bytes) (now : ℕ) (interest : lib.ndn.Interest)
      (w : Worker lib.ndn) (d : Detector cv)
      → IsStocked lib.ndn cd w
      → Ensures
          (λ (r : Worker lib.ndn × Detector cv). IsStocked lib.ndn cd r.0)
          (on_interest cv lib shuffle now interest w d)
  unfolding on_interest
  on_interest-IsStocked shuffle now interest w d h =
      let P : Worker lib.ndn × Detector cv → Type 0 = λ r. IsStocked lib.ndn cd r.0 in
      let uri = decode_uri lib.boost (lib.ndn.to_uri (lib.ndn.get_name interest)) in
      let edge_mode = requested_mode lib interest in
      Ensures-bind (λ a. Unit {0}) P (extract_targets lib.boost uri) _
        (Ensures-any (extract_targets lib.boost uri))
        (λ targets u1.
          Ensures-bind (λ a. Unit {0}) P (extract_session_id lib.boost uri) _
            (Ensures-any (extract_session_id lib.boost uri))
            (λ sid u2.
              Ensures-bind (λ a. Unit {0}) P
                (if detects cv edge_mode targets then detect cv shuffle d [] else ok ([], d)) _
                (Ensures-any
                  (if detects cv edge_mode targets then detect cv shuffle d [] else ok ([], d)))
                (λ (seen, d') u3.
                  Ensures-bind (λ a. Unit {0}) P
                    (if takes_image cv edge_mode targets
                        (lib.ndn.is_segment (lib.ndn.get_name interest))
                      then require (cv.pixels (return_mat cv d))
                      else ok [])
                    _ (Ensures-any _)
                    (λ image u4.
                      Ensures-bind (IsStocked lib.ndn cd) P
                        (dispatch lib now seen image interest targets sid w) _
                        (dispatch-IsStocked lib laws cd now seen image interest w h targets sid)
                        (λ w' g. g)))))

module _ (asio : Asio) (asio_laws : IsAsio asio) (cv : OpenCv) {lib : Libraries}
    (laws : IsLawful lib) (cd : Bytes) where
  record IsServing (p : Program cv lib) : Type 0 where
    pub timer_work : p.timer_works ≡ 1
    pub timer_loops : p.timer_thread ≡ looping
    pub first_join : p.caller ≡ joins_timer
    pub stocked : IsStocked lib.ndn cd p.state

  enter-IsServing : (d : Detector cv) → IsServing (enter cv lib (worker lib cd) d)
  unfolding enter worker
  enter-IsServing d = record {
    timer_work = refl;
    timer_loops = refl;
    first_join = refl;
    stocked = record { same_cd = refl; stock = inl refl; signed = tt };
  }

  Step-IsServing : {p q : Program cv lib} → IsServing p → Step asio cv p q → IsServing q
  unfolding on_register_failed
  Step-IsServing {p} h (registers at) = record {
    timer_work = h.timer_work;
    timer_loops = h.timer_loops;
    first_join = h.first_join;
    stocked = h.stocked;
  }
  Step-IsServing {p} h (register_fails w at done) = cc
  Step-IsServing {p} h (receives shuffle now interest w d at done) = record {
    timer_work = h.timer_work;
    timer_loops = h.timer_loops;
    first_join = h.first_join;
    stocked =
        Ensures-ok (λ (r : Worker lib.ndn × Detector cv). IsStocked lib.ndn cd r.0) _ (w, d)
          (on_interest-IsStocked cv lib laws cd shuffle now interest p.state p.detector h.stocked)
          done;
  }
  Step-IsServing {p} h (captures grabbed d at) = record {
    timer_work = h.timer_work;
    timer_loops = h.timer_loops;
    first_join = h.first_join;
    stocked = h.stocked;
  }
  Step-IsServing {p} h (face_ends at) = record {
    timer_work = h.timer_work;
    timer_loops = h.timer_loops;
    first_join = h.first_join;
    stocked = h.stocked;
  }
  Step-IsServing {p} h (timer_ends handlers at returns) =
      let (idle, none_wait) = asio_laws.returns-idle p.timer_works handlers returns in
      absurd (omega (arith, idle, h.timer_work))
  Step-IsServing {p} h (timer_joined at is_ended) =
      absurd (let e = sym h.timer_loops ∙ is_ended in cc)
  Step-IsServing {p} h (ndn_joined at is_ended) = absurd (let e = sym h.first_join ∙ at in cc)

  Runs-IsServing : {p : Program cv lib} → Runs asio cv cd p → IsServing p
  Runs-IsServing (emulation_begins lines) = enter-IsServing _
  Runs-IsServing (network_begins f lines opened d done) = enter-IsServing _
  Runs-IsServing (steps r st) = Step-IsServing (Runs-IsServing r) st

  -- For as long as a worker runs that `main` started with some content descriptor and a detector of
  -- either class: the call of `run` is in its first `join`; the content descriptor is the one
  -- given; the store is empty or holds one image, cut into segments of at most 8000 bytes that are
  -- numbered from 0 under the names of the current version and have the last number as their final
  -- block; and all that was put is Data packets, no Nack, each signed with the content that it has.
  pub Runs-stocked :
      (p : Program cv lib)
      → Runs asio cv cd p
      → (p.caller ≡ joins_timer)
        × (p.state.cd_string ≡ cd)
        × ((p.state.store ≡ []) ⊎ IsVersion lib.ndn p.state.versioned_prefix p.state.store)
        × All (IsSigned lib.ndn) p.state.output
  Runs-stocked p r =
      let h = Runs-IsServing r in
      (h.first_join, h.stocked.same_cd, h.stocked.stock, h.stocked.signed)
