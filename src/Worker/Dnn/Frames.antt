-- ===== src/Worker/Dnn/Frames.antt =====
-- Which frame the detector's thread leaves for the calls that clone it.
use crowdsensing.Common.{
  ◌≡◌, inl, inr, refl, ◌∙◌, Bool, true, false, List, [], ◌∷◌, ◌++◌, Option, none, some, Bytes, ok,
  All, sym, subst, ap, Bool-cases,
}
use crowdsensing.Detection.{is_empty}
use crowdsensing.OpenCv.{OpenCv}
use crowdsensing.Worker.Dnn.Camera.{Dnn, dnn, started, capture_round, capture, stop, return_mat}
use crowdsensing.Worker.Dnn.Reach.{dnn-started}

module _ (cv : OpenCv) where
  -- The frame after what the camera was asked for: the last one that it grabbed, or else the old one.
  pub data IsLast (old : cv.Frame) : List (Option cv.Frame) → cv.Frame → Type 0 where
    no_frame : {gs : List (Option cv.Frame)} → All (λ g. g ≡ none) gs → IsLast old gs old
    grabbed :
        (before : List (Option cv.Frame)) (f : cv.Frame) (after : List (Option cv.Frame))
        → All (λ g. g ≡ none) after
        → IsLast old (before ++ some f ∷ after) f

  -- What the calls that clone the frame get after the rounds that asked the camera for `gs`: the file
  -- once there was a round, or what the camera gave last.
  pub data IsShown (dummy_file : Bytes) : List (Option cv.Frame) → cv.Frame → Type 0 where
    too_early : IsShown dummy_file [] cv.empty_frame
    from_file :
        (g : Option cv.Frame) (gs : List (Option cv.Frame))
        → is_empty dummy_file ≡ false
        → IsShown dummy_file (g ∷ gs) (cv.imread dummy_file)
    from_camera :
        {gs : List (Option cv.Frame)} {f : cv.Frame}
        → is_empty dummy_file ≡ true
        → IsLast cv.empty_frame gs f
        → IsShown dummy_file gs f

  after_nothing :
      (old : cv.Frame) {gs : List (Option cv.Frame)} {last : cv.Frame}
      → IsLast old gs last
      → IsLast old (none ∷ gs) last
  after_nothing old (no_frame h) = no_frame (refl, h)
  after_nothing old (grabbed before f after h) = grabbed (none ∷ before) f after h

  after_frame :
      (old f : cv.Frame) {gs : List (Option cv.Frame)} {last : cv.Frame}
      → IsLast f gs last
      → IsLast old (some f ∷ gs) last
  after_frame old f (no_frame {gs} h) = grabbed [] f gs h
  after_frame old f (grabbed before f' after h) = grabbed (some f ∷ before) f' after h

  round_ended : (g : Option cv.Frame) (d : Dnn cv) → d.run ≡ false → capture_round cv g d ≡ d
  unfolding capture_round
  round_ended g d e = rw e refl

  round_dummy :
      (g : Option cv.Frame) (d : Dnn cv)
      → d.run ≡ true
      → d.is_dummy_mode ≡ true
      → capture_round cv g d ≡ record d { frame = cv.imread d.dummy_file }
  unfolding capture_round
  round_dummy g d runs dummy = rw (runs, dummy) refl

  round_nothing : (d : Dnn cv) → d.is_dummy_mode ≡ false → capture_round cv none d ≡ d
  unfolding capture_round
  round_nothing d camera = elim (Bool-cases d.run) [
    | inl runs ↦ rw (runs, camera) refl
    | inr ended ↦ rw ended refl
  ]

  round_frame :
      (f : cv.Frame) (d : Dnn cv)
      → d.run ≡ true
      → d.is_dummy_mode ≡ false
      → capture_round cv (some f) d ≡ record d { frame = f }
  unfolding capture_round
  round_frame f d runs camera = rw (runs, camera) refl

  capture_ended : (gs : List (Option cv.Frame)) (d : Dnn cv) → d.run ≡ false → capture cv gs d ≡ d
  unfolding capture
  capture_ended [] d e = refl
  capture_ended (g ∷ gs) d e = ap (capture cv gs) (round_ended g d e) ∙ capture_ended gs d e

  capture_camera :
      (gs : List (Option cv.Frame)) (d : Dnn cv)
      → d.run ≡ true
      → d.is_dummy_mode ≡ false
      → IsLast d.frame gs (capture cv gs d).frame
  unfolding capture
  capture_camera [] d runs camera = no_frame tt
  capture_camera (none ∷ gs) d runs camera =
      subst (λ (x : Dnn cv). IsLast d.frame (none ∷ gs) (capture cv gs x).frame)
        (sym (round_nothing d camera)) (after_nothing d.frame (capture_camera gs d runs camera))
  capture_camera (some f ∷ gs) d runs camera =
      subst (λ (x : Dnn cv). IsLast d.frame (some f ∷ gs) (capture cv gs x).frame)
        (sym (round_frame f d runs camera))
        (after_frame d.frame f (capture_camera gs (record d { frame = f }) runs camera))

  capture_dummy :
      (gs : List (Option cv.Frame)) (d : Dnn cv)
      → d.run ≡ true
      → d.is_dummy_mode ≡ true
      → d.frame ≡ cv.imread d.dummy_file
      → (capture cv gs d).frame ≡ cv.imread d.dummy_file
  unfolding capture
  capture_dummy [] d runs dummy e = e
  capture_dummy (g ∷ gs) d runs dummy e =
      ap (λ (x : Dnn cv). (capture cv gs x).frame) (round_dummy g d runs dummy)
      ∙ capture_dummy gs (record d { frame = cv.imread d.dummy_file }) runs dummy refl

  started-IsShown :
      (net : cv.Net) (f : Bytes) (lines : List Bytes) (gs : List (Option cv.Frame))
      → IsShown f gs (capture cv gs (started cv net f lines)).frame
  unfolding capture
  started-IsShown net f lines [] = too_early
  started-IsShown net [] lines (g ∷ gs) =
      from_camera refl (capture_camera (g ∷ gs) (started cv net [] lines) refl refl)
  started-IsShown net (c ∷ f) lines (g ∷ gs) =
      subst (IsShown (c ∷ f) (g ∷ gs))
        (sym (
          ap (λ (x : Dnn cv). (capture cv gs x).frame)
            (round_dummy g (started cv net (c ∷ f) lines) refl refl)
          ∙ capture_dummy gs (record (started cv net (c ∷ f) lines) { frame = cv.imread (c ∷ f) })
              refl refl refl))
        (from_file g gs refl)

  -- A detector that the constructor returns, whose thread makes some rounds before the destructor
  -- ends its loop, shows to the calls that clone the frame: the empty image before the first round; after
  -- it the dummy file, where one is given; and without a dummy file the last frame that the camera
  -- grabbed in these rounds, or the empty image as long as it grabbed none. After the end no frame comes in.
  pub return_mat-IsShown :
      (dummy_file : Bytes) (lines : List Bytes) (opened : Bool) (d : Dnn cv)
      (gs later : List (Option cv.Frame))
      → dnn cv dummy_file lines opened ≡ ok d
      → IsShown dummy_file gs (return_mat cv (capture cv gs d))
        × (return_mat cv (capture cv later (stop cv (capture cv gs d)))
            ≡ return_mat cv (capture cv gs d))
  unfolding return_mat stop
  return_mat-IsShown f lines opened d gs later e =
      let (net, is_started) = dnn-started cv f lines opened d e in
      (
        subst (λ (x : Dnn cv). IsShown f gs (capture cv gs x).frame) (sym is_started)
            (started-IsShown net f lines gs),
        ap (λ (x : Dnn cv). x.frame) (capture_ended later (stop cv (capture cv gs d)) refl),
      )
