-- ===== src/Tests/WorkerMain.antt =====
-- The worker's command line with a dummy file.
use crowdsensing.Common.{
  ◌≡◌, ◌⊎◌, true, false, Bool, List, [], ◌∷◌, none, some, Bytes, codes, ok, err, Fault,
}
use crowdsensing.Reference.{lib}
use crowdsensing.Reference.Asio.{asio}
use crowdsensing.Reference.OpenCv.{cv}
use crowdsensing.Worker.Parameter.{Variables, given, value_or}
use crowdsensing.Worker.Detection.{emulate_classes}
use crowdsensing.Worker.Dnn.Camera.{Dnn, dnn}
use crowdsensing.Worker.Watch.{emulated, network}
use crowdsensing.Worker.Run.{worker, Program, enter, Runs}
use crowdsensing.Worker.Run.Main.{ends, runs, catches, main, chosen_cd, main-Runs}
use crowdsensing.Tests.WorkerSegments.{parse_command_line}

abbrev args : List Bytes
args = codes "-d" ∷ codes "street.jpg" ∷ []

abbrev lines : List Bytes
lines = codes "person" ∷ codes "cat" ∷ []

abbrev opened : Bool
opened = false

main-Runs_example :
    ((parse_command_line args ≡ none) × (main cv lib parse_command_line args lines opened ≡ ends 1))
    ⊎ ((v : Variables) × (parse_command_line args ≡ some v)
        × (((given (v (codes "help")) ≡ true)
              × (main cv lib parse_command_line args lines opened ≡ ends 0))
            ⊎ ((p : Program cv lib) × (given (v (codes "help")) ≡ false)
                × (given (v (codes "emulation")) ≡ true)
                × (main cv lib parse_command_line args lines opened ≡ runs p)
                × (p ≡ enter cv lib (worker lib (chosen_cd v)) (emulated (emulate_classes lines)))
                × Runs asio cv (chosen_cd v) p)
            ⊎ ((p : Program cv lib) × (d : Dnn cv) × (given (v (codes "help")) ≡ false)
                × (given (v (codes "emulation")) ≡ false)
                × (dnn cv (value_or (v (codes "dummy")) []) lines opened ≡ ok d)
                × (main cv lib parse_command_line args lines opened ≡ runs p)
                × (p ≡ enter cv lib (worker lib (chosen_cd v)) (network d))
                × Runs asio cv (chosen_cd v) p)
            ⊎ ((e : Fault) × (given (v (codes "help")) ≡ false)
                × (given (v (codes "emulation")) ≡ false)
                × (dnn cv (value_or (v (codes "dummy")) []) lines opened ≡ err e)
                × (main cv lib parse_command_line args lines opened ≡ catches e))))
main-Runs_example = main-Runs asio cv lib parse_command_line args lines opened
