-- ===== src/Worker/Run.antt =====
-- src/worker/src/worker.cpp, the constructor and `run`, with the two threads that `run` starts and
-- the thread of the detector that captures frames. A handler is one step, and so is a round of
-- `capture`. A step whose handler does not return has no next state: the fault ends the program.
pub mod Stock
pub mod Handler
pub mod Serving
pub mod Main
use crowdsensing.Common.{ℕ, ◌≡◌, Bool, true, List, [], Option, none, some, Bytes, Result, ok}
use crowdsensing.Asio.{Asio}
use crowdsensing.Asio.Pool.{Pool, pool}
use crowdsensing.Libraries.{Libraries}
use crowdsensing.OpenCv.{OpenCv}
use crowdsensing.Worker.Detection.{emulate_classes}
use crowdsensing.Worker.Dnn.Camera.{Dnn, dnn, capture_round}
use crowdsensing.Worker.Segments.{Worker}
use crowdsensing.Worker.Handlers.{on_register_failed}
use crowdsensing.Worker.Watch.{Detector, emulated, network, on_interest}

-- The constructor, on the members that the handlers use.
unfoldable pub worker : (lib : Libraries) → Bytes → Worker lib.ndn
worker lib cd_str = record {
  cd_string = cd_str;
  name_prefix = lib.ndn.empty_name;
  versioned_prefix = lib.ndn.empty_name;
  store = [];
  output = [];
}

-- The constructor's loops, with `m_num_thread` and `m_num_queue`.
unfoldable pub thread_pool : Result Pool
thread_pool = pool 1 1

-- Where the thread that called `run` is: in one of the `join`s, or behind them.
pub data Caller : Type 0 where
  joins_timer joins_ndn returned : Caller

-- Where a thread is that `run` started.
pub data Thread : Type 0 where
  starting looping ended : Thread

module _ (cv : OpenCv) (lib : Libraries) where
  pub record Program : Type 0 where
    pub state : Worker lib.ndn
    pub detector : Detector cv
    -- The work objects of `m_timer_service` that are alive.
    pub timer_works : ℕ
    pub caller : Caller
    pub timer_thread : Thread
    pub ndn_thread : Thread
    -- The prefix that `setInterestFilter` has registered.
    pub filter : Option Bytes

  -- The threads that `run` starts, and its first `join`.
  unfoldable pub enter : Worker lib.ndn → Detector cv → Program
  enter w d = record {
    state = w;
    detector = d;
    timer_works = 1;
    caller = joins_timer;
    timer_thread = looping;
    ndn_thread = starting;
    filter = none;
  }

module _ (asio : Asio) (cv : OpenCv) {lib : Libraries} where
  -- A step of one of the threads.
  pub data Step (p : Program cv lib) : Program cv lib → Type 0 where
    registers :
        p.ndn_thread ≡ starting
        → Step p (record p { ndn_thread = looping; filter = some p.state.cd_string })
    -- The constructor leaves `m_ndn_face_ptr` null.
    register_fails :
        (w : Worker lib.ndn)
        → p.ndn_thread ≡ looping
        → on_register_failed lib none p.state ≡ ok w
        → Step p (record p { state = w })
    receives :
        (shuffle : List Bytes → List Bytes) (now : ℕ) (interest : lib.ndn.Interest)
        (w : Worker lib.ndn) (d : Detector cv)
        → p.ndn_thread ≡ looping
        → on_interest cv lib shuffle now interest p.state p.detector ≡ ok (w, d)
        → Step p (record p { state = w; detector = d })
    -- A round of the thread that the network's constructor has started.
    captures :
        (grabbed : Option cv.Frame) (d : Dnn cv)
        → p.detector ≡ network d
        → Step p (record p { detector = network (capture_round cv grabbed d) })
    -- `processEvents` returns.
    face_ends : p.ndn_thread ≡ looping → Step p (record p { ndn_thread = ended })
    -- `m_timer_service.run()` returns.
    timer_ends :
        (handlers : ℕ)
        → p.timer_thread ≡ looping
        → asio.run_returns p.timer_works handlers ≡ true
        → Step p (record p { timer_thread = ended })
    timer_joined :
        p.caller ≡ joins_timer → p.timer_thread ≡ ended → Step p (record p { caller = joins_ndn })
    ndn_joined :
        p.caller ≡ joins_ndn → p.ndn_thread ≡ ended → Step p (record p { caller = returned })

  -- The programs that `main` leads to, with a detector of either class.
  pub data Runs (cd : Bytes) : Program cv lib → Type 0 where
    emulation_begins :
        (lines : List Bytes)
        → Runs cd (enter cv lib (worker lib cd) (emulated (emulate_classes lines)))
    network_begins :
        (dummy_file : Bytes) (lines : List Bytes) (opened : Bool) (d : Dnn cv)
        → dnn cv dummy_file lines opened ≡ ok d
        → Runs cd (enter cv lib (worker lib cd) (network d))
    steps : {p q : Program cv lib} → Runs cd p → Step p q → Runs cd q
