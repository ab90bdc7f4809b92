-- ===== src/Lib.antt =====
-- Crowdsensing over named data networking: a client asks an edge which of its targets are seen at
-- which locations; the edge asks the workers at those locations, collects what they report in a
-- session, and answers the client with one packet. In edge mode a worker detects by itself and
-- sends a report; in cloud mode it sends its image in segments, and the edge detects.
--
-- The parts, and the files that model them:
--   src/edge/src/session-manager.cpp: Edge/SessionManager.antt. The table of open sessions is an
--     association list (Edge/HashTable.antt), each method a function on it (`add`, `get`, `erase`,
--     `append_payload`, `buffer`, `data_packet`, `dump`). Refinement and Abstract beside it compare
--     it with a partial map and with the table up to its order.
--   src/edge/src/producer.cpp: Edge/Names.antt (`convertInterestName`, `ExtractTargets`,
--     `ExtractLocname`, `decodeURI`), Edge/Producer/State.antt (the members and the constructor,
--     `io_service`, `onRegisterFailed`), Edge/Producer/Requests.antt (`onInterest`,
--     `onInterest_Cloud`), Edge/Producer/Replies.antt (`onData`, `adddata`, `send_data`, `onNack`,
--     `onTimeout`), Edge/Run.antt (`run` with its threads) and Edge/Run/Pool.antt (`post_task`). A
--     handler takes the state and gives the next one, or the fault that ends it. What it hands to
--     the face, to the timer service and to the segment fetcher is appended to `output`. Answer,
--     Session, Timer, Queues, Race, Counts, Once, Reach, Rule, Armed, Drain, Signature and Malformed
--     beside them hold the proofs; Reach has the events and the states they
--     lead to, Drain the expiry of timers. Kept, Allowed, Serving and Returns under Run have the
--     proofs on `run`.
--   src/edge/src/execute.cpp, encode.cpp and main.cpp: Edge/Execute.antt (with its detector, through
--     the virtual call, Edge/Watch.antt; Fetches under it holds a proof), Edge/Encode.antt and
--     Edge/Main.antt, the last with `Producer::run` and the handler it registers.
--   src/worker/src/worker.cpp: Worker/Names.antt, Worker/Segments.antt (`populateStore`,
--     `processSegmentInterest`) and Worker/Handlers.antt (`onInterest`, `onRegisterFailed`);
--     Reply, Dispatch, Image and Fetching beside them hold proofs on the handler. Worker/Run.antt has
--     the constructor and `run` with its threads, Worker/Run/Main.antt `main`; Stock, Handler and
--     Serving under Run hold proofs.
--   The pools of threads of both programs, which their constructors start and their destructors end:
--     Asio/Pool.antt; Alive, Destroy and Ends under it hold proofs.
--   src/edge/src/objectdetection.cpp: Edge/Detection.antt (the emulated detector) and Edge/Dnn.antt
--     (`DnnObjectDetection`: `dnn` is its constructor, `destroy` its destructor, `detect`,
--     `postprocess`, `draw_pred`, `get_outputs_names`); Agrees and Life beside it hold proofs.
--   src/worker/src/encode.cpp, decode.cpp, parameter.cpp, main.cpp and the emulated detector of
--     objectdetection.cpp: Worker/Encode.antt, Worker/Decode.antt, Worker/Parameter.antt and
--     Worker/Detection.antt.
--   src/worker/src/objectdetection.cpp, `DnnObjectDetection`: Worker/Dnn.antt (`detect` on a frame
--     and what it calls) and Worker/Dnn/Camera.antt (the constructor, the rounds of `capture`, the
--     destructor, `returnMat`, and `detect` on the frame that is there). Scan, Report, Seen, Reach
--     and Frames beside them hold the proofs; Reach has the steps of the two threads. Worker/Watch.antt
--     is the worker's handler with its detector, through the virtual calls. Detection.antt
--     holds the data that both programs' detectors use.
--   System.antt joins the two programs in edge mode, where the workers' answers are the edge's
--     replies, and System/Cloud.antt in cloud mode, where the edge fetches the workers' images;
--     Network under each of them is the same with the network as the detector. System/Sent.antt has
--     what the edge's handler hands to the face, as the Interests that the workers get.
--
-- Some definitions stand for no code: a loop over a list of replies, completed fetches, expired
-- timers or Interests (`replies`, `completions`, `fetches`, `expire`, `handle_all`, `serve`,
-- `detections`) is a handler called again and again.
--
-- Boost, ndn-cxx and json11 are not part of the repository: they are the fields of the parameter
-- `Libraries` (Boost.antt, Ndn.antt, Json.antt, Libraries.antt), and what is relied on are the laws
-- of `IsLawful`. Reference.antt gives small libraries that meet the laws, and Tests.antt applies the
-- theorems with them. OpenCV is a parameter of its own, with `float` and the image among its types
-- (OpenCv.antt, laws `IsOpenCv`, instance Reference/OpenCv.antt). The handlers in Edge/Execute.antt
-- and Worker/Handlers.antt take the detector's answer and the image as arguments; Edge/Watch.antt
-- and Worker/Watch.antt give them their detectors. The generator of session ids is the
-- standard's engine, written out in Random.antt; the order in which `std::shuffle` leaves a list
-- with a random seed is an argument.
--
-- Texts and buffers are lists of numbers. A `uint64_t` wraps at 2 ^ 64 where it is written out. What
-- the standard leaves undefined (`back()` of an empty vector, a null pointer, a division by zero) is
-- a fault that ends the call. The coordinates of boxes are integers without bounds. The `while` loop
-- of `populateStore` runs on fuel: one more than the bytes of the image, and a round takes at least
-- one byte, so the fuel is enough. All other loops are recursions on a list.
--
-- Sequences of events are lists of calls. The two threads that may be inside `send_data` are steps
-- of a schedule, one for each call of the session manager, which is locked call by call, but two for
-- its `dump`, which takes no lock. The threads of `run` and those of the pools are steps of a
-- relation, in any order, where a handler is one step and a handler that does not return ends the
-- program. When `io_service::run` may return is a parameter (`Asio`, laws `IsAsio`, instance
-- Reference/Asio.antt); `Face::processEvents` may return at any time.
--
-- Not modelled: the exception of `Face::put` for a packet that is too large (above 8800 bytes), which
-- would end `send_data` and with it the thread, so that what is proved of an answer is for answers
-- that fit; the log on the standard streams; interleavings inside a handler (but for `send_data`, see
-- above); the files that the detectors write; `capture` of the edge's detector, which nothing starts;
-- the client's page in src/client; the Makefiles.
pub mod Common
pub mod Asio
pub mod Decimal
pub mod Boost
pub mod Ndn
pub mod Json
pub mod Uri
pub mod Random
pub mod Libraries
pub mod OpenCv
pub mod Detection
pub mod Edge
pub mod Worker
pub mod System
pub mod Reference
pub mod Tests
