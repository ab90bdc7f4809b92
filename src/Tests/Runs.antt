-- ===== src/Tests/Runs.antt =====
-- Runs of the edge in both modes and of a worker, each with the first Interest that it gets.
use crowdsensing.Edge.Execute.Cloud.{location_fetch}
use crowdsensing.Edge.Producer.State.{Action}
use crowdsensing.System.Cloud.{executor_of}
use crowdsensing.Tests.Setup.{sid}
use crowdsensing.Common.{
  failed_assert, Result, ◌≡◌, ◌≢◌, ◌⊎◌, refl, List, [], ◌∷◌, some, Bytes, codes, ok, err, All,
}
use crowdsensing.Reference.{lib, lib-IsLawful}
use crowdsensing.Reference.Asio.{asio, asio-IsAsio}
use crowdsensing.Reference.OpenCv.{cv}
use crowdsensing.Edge.Producer.State.{State, Executor, producer}
use crowdsensing.Edge.Producer.Reach.{Reachable}
use crowdsensing.Edge.Producer.Requests.{on_interest_cloud}
use crowdsensing.Edge.Producer.Session.{on_interest-opened}
use crowdsensing.Edge.Execute.Cloud.{cloud_query_opened}
use crowdsensing.Edge.Main as Main
use crowdsensing.Edge.Run as EdgeRun
use crowdsensing.Edge.Run.{enter, receive, returned}
use crowdsensing.Edge.Run.Allowed.{Allowed}
use crowdsensing.Edge.Run.Serving.{handler, Runs-serving}
use crowdsensing.Worker.Segments.{
  Worker, put, packet, segment, populate_store, populate_loop, process_segment_interest, chosen,
}
use crowdsensing.Reference.Splitting.{replace_from, split}
use crowdsensing.Reference.Ndn.{is_segment, is_version}
use crowdsensing.Worker.Names.{decode_uri, extract_targets, extract_session_id}
use crowdsensing.Worker.Handlers.{dispatch}
use crowdsensing.Tests.Setup.{interest_of}
use crowdsensing.Worker.Watch.{emulated, on_interest, detects, takes_image, return_mat}
use crowdsensing.Worker.Detection.{emulate_classes}
use crowdsensing.Worker.Run as WorkerRun
use crowdsensing.Worker.Run.Stock.{IsVersion, IsSigned}
use crowdsensing.Worker.Run.Serving.{Runs-stocked}
use crowdsensing.Tests.Setup.{interest, query, asks}
use crowdsensing.Tests.EdgeReach.{after_query}

abbrev edge_begun : EdgeRun.Program lib
edge_begun = enter lib (producer lib b'e')

abbrev edge_looping : EdgeRun.Program lib
edge_looping = record edge_begun { ndn_thread = EdgeRun.looping; filter = Main.on_interest }

abbrev pub edge_asked : EdgeRun.Program lib
edge_asked = record edge_looping { state = after_query }

pub edge-Runs : EdgeRun.Runs asio {lib = lib} b'e' edge_asked
unfolding enter receive Main.run producer
edge-Runs = EdgeRun.steps (EdgeRun.steps EdgeRun.begins (EdgeRun.registers refl)) (
    EdgeRun.receives 7 interest after_query refl
      (on_interest-opened lib-IsLawful 7 interest query asks (producer lib b'e')))

Runs-serving_example :
    (edge_asked.caller ≢ returned)
    × (edge_asked.timer_thread ≡ EdgeRun.looping)
    × Reachable {lib = lib} b'e' edge_asked.state
    × All (Allowed lib (handler lib b'e')) edge_asked.state.output
Runs-serving_example = Runs-serving asio asio-IsAsio {lib = lib} b'e' edge_asked edge-Runs

abbrev cloud_begun : EdgeRun.Program lib
cloud_begun = enter lib (producer lib b'c')

cloud_opened :
    (r : State lib) × (on_interest_cloud {lib = lib} 7 interest (producer lib b'c') ≡ ok r)
cloud_opened =
    let (r, done, out, sessions, arrived, issued) =
      cloud_query_opened {lib = lib} lib-IsLawful 7 interest query (producer lib b'c') (codes "cat")
        (codes "dog" ∷ []) asks refl in
    (r, done)

abbrev cloud_asked : EdgeRun.Program lib
cloud_asked = record cloud_begun {
  ndn_thread = EdgeRun.looping;
  filter = Main.on_interest_cloud;
  state = cloud_opened.0;
}

-- The rest of what the query has handed out, behind the first fetch.
abbrev fetch_30 : Action lib.ndn.Name lib.ndn.Data
fetch_30 = location_fetch lib query sid (codes "cat") (codes "30")

-- What was fetched does not become a frame.
abbrev no_frame : Bytes → Result (List Bytes)
no_frame bytes = err failed_assert

abbrev executor_30 : Executor
executor_30 = executor_of lib query sid (codes "cat") (codes "30")

abbrev lines : List Bytes
lines = codes "person" ∷ codes "cat" ∷ []

abbrev worker_begun : WorkerRun.Program cv lib
worker_begun =
    WorkerRun.enter cv lib (WorkerRun.worker lib (codes "/3/0")) (emulated (emulate_classes lines))

-- The one packet of the camera's image.
abbrev segment_0 : lib.ndn.Data
segment_0 = lib.ndn.sign (
    lib.ndn.set_final_block
      (packet lib.ndn (lib.ndn.append_version (lib.ndn.of_uri (codes "/3/0")) 7) 0 (codes "jpeg"))
      0)

abbrev worker_answered : Worker lib.ndn
worker_answered = record {
  cd_string = codes "/3/0";
  name_prefix = lib.ndn.of_uri (codes "/3/0");
  versioned_prefix = lib.ndn.append_version (lib.ndn.of_uri (codes "/3/0")) 7;
  store = segment_0 ∷ [];
  output = put segment_0 ∷ [];
}

worker_answers :
    on_interest cv lib
      (λ cs. cs)
      7
      (interest_of (codes "/3/0"))
      (WorkerRun.worker lib (codes "/3/0"))
      (emulated (emulate_classes lines))
    ≡ ok (worker_answered, emulated (emulate_classes lines))
unfolding on_interest WorkerRun.worker decode_uri split replace_from extract_targets
    extract_session_id dispatch detects takes_image return_mat populate_store populate_loop segment
    process_segment_interest chosen is_segment is_version
worker_answers = refl

abbrev worker_asked : WorkerRun.Program cv lib
worker_asked = record worker_begun {
  ndn_thread = WorkerRun.looping;
  filter = some (codes "/3/0");
  state = worker_answered;
}

worker-Runs : WorkerRun.Runs asio cv {lib = lib} (codes "/3/0") worker_asked
unfolding WorkerRun.enter WorkerRun.worker
worker-Runs =
    WorkerRun.steps (WorkerRun.steps (WorkerRun.emulation_begins lines) (WorkerRun.registers refl))
      (WorkerRun.receives (λ cs. cs) 7 (interest_of (codes "/3/0")) worker_answered
        (emulated (emulate_classes lines)) refl worker_answers)

Runs-stocked_example :
    (worker_asked.caller ≡ WorkerRun.joins_timer)
    × (worker_asked.state.cd_string ≡ codes "/3/0")
    × ((worker_asked.state.store ≡ [])
        ⊎ IsVersion lib.ndn worker_asked.state.versioned_prefix worker_asked.state.store)
    × All (IsSigned lib.ndn) worker_asked.state.output
Runs-stocked_example =
    Runs-stocked asio asio-IsAsio cv {lib = lib} lib-IsLawful (codes "/3/0") worker_asked
      worker-Runs
