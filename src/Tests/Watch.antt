-- ===== src/Tests/Watch.antt =====
-- A worker in edge mode whose network finds a cat.
use mathlib.Core.List.{Mem}
use crowdsensing.Common.{
  Bool, true, ◌≡◌, ◌↔◌, refl, List, [], ◌∷◌, ◌++◌, map, some, Bytes, codes, ok, All, arith,
}
use crowdsensing.Tests.Setup.{sid}
use crowdsensing.Decimal.{to_string}
use crowdsensing.Reference.{lib, lib-IsLawful}
use crowdsensing.Reference.OpenCv.{cv, cv-IsOpenCv}
use crowdsensing.Worker.Dnn.Scan.{next_row, next_layer, no_layer}
use crowdsensing.Worker.Dnn.Seen.{IsSeen}
use crowdsensing.Worker.Dnn.Camera.{Dnn, capture_round}
use crowdsensing.Worker.Dnn.Reach.{Reached, constructed, captured}
use crowdsensing.Worker.Encode.{encode}
use crowdsensing.Worker.Segments.{put}
use crowdsensing.Worker.Handlers.{location_text}
use crowdsensing.Worker.Watch.{network, on_interest}
use crowdsensing.Worker.Watch.Network.{network_answered}
use crowdsensing.Tests.Setup.{query}
use crowdsensing.Tests.WorkerNames.{received, received_0-Receives, worker}
use crowdsensing.Tests.Detection.{classes, frame, rows, detector, constructs}

abbrev pub watching : Dnn cv
watching = capture_round cv (some frame) detector

network_answered_example :
    (answer : lib.ndn.Data) × (found : Bool) × (names : List Bytes) × (d' : Dnn cv) × (on_interest
        cv lib
        (λ cs. cs)
        7
        (received (codes "0"))
        worker
        (network watching)
      ≡ ok (record worker { output = worker.output ++ put answer ∷ [] }, network d'))
    × Reached cv 0 classes d'
    × (lib.ndn.content answer
        ≡ encode lib.json (location_text lib worker) [] (codes "cat") found (to_string sid))
    × ((found ≡ true) ↔ Mem (codes "cat") names)
    × (map some names ≡ some (codes "cat") ∷ [])
    × All (IsSeen cv classes rows) names
unfolding capture_round
network_answered_example =
    network_answered cv lib lib-IsLawful cv-IsOpenCv query (codes "30") sid (received (codes "0"))
      (λ cs. cs) 7 worker (codes "cat") (codes "dog" ∷ []) 0 classes (codes "yolo" ∷ []) watching _
      rows received_0-Receives refl refl (omega arith, tt) refl
      (captured (some frame) (constructed [] true detector constructs refl)) refl (omega arith)
      (next_row _ _ refl (next_row _ _ refl (next_layer no_layer))) (refl, (refl, tt))
