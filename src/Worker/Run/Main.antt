-- ===== src/Worker/Run/Main.antt =====
-- src/worker/src/main.cpp from the command line to the running worker.
use crowdsensing.Common.{
  Result-cases, ℕ, ◌≡◌, ◌⊎◌, inl, inr, refl, ap, ◌∙◌, if◌then◌else◌, Bool, true, false, List, [],
  Option, none, some, Bytes, codes, Result, ok, err, Fault, Option-cases, Bool-cases,
}
use crowdsensing.Asio.{Asio}
use crowdsensing.Libraries.{Libraries}
use crowdsensing.OpenCv.{OpenCv}
use crowdsensing.Worker.Parameter.{Variables, Outcome, returns, exits, given, value_or, parse}
use crowdsensing.Worker.Detection as Detection
use crowdsensing.Worker.Detection.{emulate_classes}
use crowdsensing.Worker.Dnn.Camera.{Dnn, dnn}
use crowdsensing.Worker.Watch.{emulated, network}
use crowdsensing.Worker.Run.{worker, Program, enter, Runs, emulation_begins, network_begins}

-- The content descriptor: the one given, or the default.
abbrev pub chosen_cd : Variables → Bytes
chosen_cd v = value_or (v (codes "cd")) (codes "/image/location:30123")

module _ (cv : OpenCv) (lib : Libraries) where
  -- How `main` goes on: it ends with a status, it runs a worker, or it catches an exception of the
  -- detector's constructor, which it writes to the log.
  pub data Started : Type 0 where
    ends : ℕ → Started
    runs : Program cv lib → Started
    catches : Fault → Started

  abbrev constructed : Bytes → Result (Dnn cv) → Started
  constructed cd (ok d) = runs (enter cv lib (worker lib cd) (network d))
  constructed cd (err e) = catches e

  -- The detector and the worker, on the lines of `coco.names`; the last argument says whether the
  -- camera opens.
  abbrev constructs : Outcome (Detection.Detector × Bytes) → List Bytes → Bool → Started
  constructs (exits status) lines opened = ends status
  constructs (returns (Detection.emulate, cd)) lines opened =
      runs (enter cv lib (worker lib cd) (emulated (emulate_classes lines)))
  constructs (returns (Detection.dnn dummy_file, cd)) lines opened =
      constructed cd (dnn cv dummy_file lines opened)

  unfoldable pub main : (List Bytes → Option Variables) → List Bytes → List Bytes → Bool → Started
  main parse_command_line args lines opened =
      constructs (Detection.main parse_command_line args) lines opened

module _ (asio : Asio) (cv : OpenCv) (lib : Libraries) where
  detection_missing :
      (parse_command_line : List Bytes → Option Variables) (args : List Bytes)
      → parse_command_line args ≡ none
      → Detection.main parse_command_line args ≡ exits 1
  unfolding Detection.main parse
  detection_missing parse_command_line args e = rw (e, Detection.main, parse) refl

  detection_help :
      (parse_command_line : List Bytes → Option Variables) (args : List Bytes) (v : Variables)
      → parse_command_line args ≡ some v
      → given (v (codes "help")) ≡ true
      → Detection.main parse_command_line args ≡ exits 0
  unfolding Detection.main parse
  detection_help parse_command_line args v e help = rw (e, Detection.main, parse, help) refl

  detection_chosen :
      (parse_command_line : List Bytes → Option Variables) (args : List Bytes) (v : Variables)
      (b : Bool)
      → parse_command_line args ≡ some v
      → given (v (codes "help")) ≡ false
      → given (v (codes "emulation")) ≡ b
      → Detection.main parse_command_line args
        ≡ returns (
          if b then Detection.emulate else Detection.dnn (value_or (v (codes "dummy")) []),
          chosen_cd v,
        )
  unfolding Detection.main parse
  detection_chosen parse_command_line args v true e no_help em =
      rw (e, Detection.main, parse, no_help, em) refl
  detection_chosen parse_command_line args v false e no_help em =
      rw (e, Detection.main, parse, no_help, em) refl

  -- Arguments that do not parse end the program with status 1, and the option for help ends it with
  -- status 0. Otherwise, with the option for emulation, a worker runs for the content descriptor
  -- that was given, or else the default, with the emulated detector. Without it, a worker runs for
  -- that content descriptor with the network, constructed for the dummy file that was given, or
  -- for the camera; if the construction fails, that exception is caught and no worker runs.
  pub main-Runs :
      (parse_command_line : List Bytes → Option Variables) (args lines : List Bytes) (opened : Bool)
      → ((parse_command_line args ≡ none)
          × (main cv lib parse_command_line args lines opened ≡ ends 1))
        ⊎ ((v : Variables) × (parse_command_line args ≡ some v)
            × (((given (v (codes "help")) ≡ true)
                  × (main cv lib parse_command_line args lines opened ≡ ends 0))
                ⊎ ((p : Program cv lib) × (given (v (codes "help")) ≡ false)
                    × (given (v (codes "emulation")) ≡ true)
                    × (main cv lib parse_command_line args lines opened ≡ runs p)
                    × (p
                        ≡ enter cv lib
                            (worker lib (chosen_cd v))
                            (emulated (emulate_classes lines)))
                    × Runs asio cv (chosen_cd v) p)
                ⊎ ((p : Program cv lib) × (d : Dnn cv) × (given (v (codes "help")) ≡ false)
                    × (given (v (codes "emulation")) ≡ false)
                    × (dnn cv (value_or (v (codes "dummy")) []) lines opened ≡ ok d)
                    × (main cv lib parse_command_line args lines opened ≡ runs p)
                    × (p ≡ enter cv lib (worker lib (chosen_cd v)) (network d))
                    × Runs asio cv (chosen_cd v) p)
                ⊎ ((e : Fault) × (given (v (codes "help")) ≡ false)
                    × (given (v (codes "emulation")) ≡ false)
                    × (dnn cv (value_or (v (codes "dummy")) []) lines opened ≡ err e)
                    × (main cv lib parse_command_line args lines opened ≡ catches e))))
  unfolding main
  main-Runs parse_command_line args lines opened = elim (Option-cases (parse_command_line args)) [
    | inl missing ↦ inl (missing, on_outcome _ (detection_missing parse_command_line args missing))
    | inr (v, parsed) ↦ inr (
      v,
      parsed,
      elim (Bool-cases (given (v (codes "help")))) [
        | inl help ↦ inl (help, on_outcome _ (detection_help parse_command_line args v parsed help))
        | inr no_help ↦ inr (elim (Bool-cases (given (v (codes "emulation")))) [
          | inl emulation ↦ inl (
            enter cv lib (worker lib (chosen_cd v)) (emulated (emulate_classes lines)),
            no_help,
            emulation,
            on_outcome _ (detection_chosen parse_command_line args v true parsed no_help emulation),
            refl,
            emulation_begins lines,
          )
          | inr camera ↦
              inr (elim (Result-cases (dnn cv (value_or (v (codes "dummy")) []) lines opened)) [
                | inl (d, made) ↦ inl (
                  enter cv lib (worker lib (chosen_cd v)) (network d),
                  d,
                  no_help,
                  camera,
                  made,
                  on_outcome _
                        (detection_chosen parse_command_line args v false parsed no_help camera)
                      ∙ ap (constructed cv lib (chosen_cd v)) made,
                  refl,
                  network_begins (value_or (v (codes "dummy")) []) lines opened d made,
                )
                | inr (e, failed) ↦ inr (
                  e,
                  no_help,
                  camera,
                  failed,
                  on_outcome _
                        (detection_chosen parse_command_line args v false parsed no_help camera)
                      ∙ ap (constructed cv lib (chosen_cd v)) failed,
                )
              ])
        ])
      ],
    )
  ]
    where
      on_outcome :
          (o : Outcome (Detection.Detector × Bytes))
          → Detection.main parse_command_line args ≡ o
          → main cv lib parse_command_line args lines opened ≡ constructs cv lib o lines opened
      on_outcome o e = ap (λ o. constructs cv lib o lines opened) e
