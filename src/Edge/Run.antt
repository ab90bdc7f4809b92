-- ===== src/Edge/Run.antt =====
-- src/edge/src/producer.cpp, `run`, from its first to its last statement, with the two threads that
-- it starts: one runs the timer service, the other registers a handler and then processes what
-- arrives at the face. A handler is one step; two of them inside `send_data` at a time are in
-- Producer/Race.antt. A step whose handler does not return has no next state: the fault ends the
-- program.
pub mod Kept
pub mod Allowed
pub mod Serving
pub mod Returns
pub mod Pool
use crowdsensing.Common.{
  ℕ, suc, ◌≡◌, true, List, [], ◌∷◌, ◌++◌, Option, none, some, Bytes, Result, ok,
}
use crowdsensing.Asio.{Asio}
use crowdsensing.Libraries.{Libraries}
use crowdsensing.Edge.Producer.State.{
  State, Executor, Action, Request, put, express, arm, fetch, producer, on_register_failed,
}
use crowdsensing.Edge.Producer.Replies.{send_data, on_data}
use crowdsensing.Edge.Producer.Requests.{on_interest, on_interest_cloud, session_timer}
use crowdsensing.Edge.Execute.{after_fetch_complete, after_fetch_error}
use crowdsensing.Edge.Main as Main
use crowdsensing.Edge.Main.{Handler}

-- Where the thread that called `run` is: in one of the `join`s, or behind them.
pub data Caller : Type 0 where
  joins_ndn joins_timer returned : Caller

-- Where a thread is that `run` started.
pub data Thread : Type 0 where
  starting looping ended : Thread

-- Something was handed to the face or to the timer service.
abbrev pub Handed : {A : Type 0} → A → List A → Type 0
Handed {A} a out = (before after : List A) × (out ≡ before ++ a ∷ after)

module _ (lib : Libraries) where
  pub record Program : Type 0 where
    pub state : State lib
    -- The work objects of `m_timer_service` that are alive.
    pub timer_works : ℕ
    pub caller : Caller
    pub timer_thread : Thread
    pub ndn_thread : Thread
    -- What `setInterestFilter` has registered.
    pub filter : Handler

  -- The threads that `run` starts and the first `join` it comes to.
  abbrev pub threads : Handler → State lib → Program
  threads Main.on_interest_cloud s = record {
    state = s;
    timer_works = 1;
    caller = joins_ndn;
    timer_thread = looping;
    ndn_thread = starting;
    filter = Main.no_handler;
  }
  threads Main.on_interest s = record {
    state = s;
    timer_works = 1;
    caller = joins_ndn;
    timer_thread = looping;
    ndn_thread = starting;
    filter = Main.no_handler;
  }
  -- In another mode there is no `ndn_thread`.
  threads Main.no_handler s = record {
    state = s;
    timer_works = 1;
    caller = joins_timer;
    timer_thread = looping;
    ndn_thread = ended;
    filter = Main.no_handler;
  }

  -- `run` decides by the mode.
  unfoldable pub enter : State lib → Program
  enter s = threads (Main.run s) s

  -- An Interest goes to the handler that is registered.
  unfoldable pub receive : Handler → ℕ → lib.ndn.Interest → State lib → Result (State lib)
  receive Main.on_interest_cloud now interest s = on_interest_cloud now interest s
  receive Main.on_interest now interest s = on_interest now interest s
  receive Main.no_handler now interest s = ok s

module _ (asio : Asio) {lib : Libraries} where
  -- A step of one of the threads. The face calls back for what was expressed or fetched, the timer
  -- service for what was armed.
  pub data Step (p : Program lib) : Program lib → Type 0 where
    registers :
        p.ndn_thread ≡ starting
        → Step p (record p { ndn_thread = looping; filter = Main.run p.state })
    register_fails :
        (s : State lib)
        → p.ndn_thread ≡ looping
        → on_register_failed p.state ≡ ok s
        → Step p (record p { state = s })
    receives :
        (now : ℕ) (interest : lib.ndn.Interest) (s : State lib)
        → p.ndn_thread ≡ looping
        → receive lib p.filter now interest p.state ≡ ok s
        → Step p (record p { state = s })
    replied :
        (request : Request lib.ndn.Name) (value : Bytes) (s : State lib)
        → p.ndn_thread ≡ looping
        → Handed (express request) p.state.output
        → on_data value p.state ≡ ok s
        → Step p (record p { state = s })
    fetched :
        (request : Request lib.ndn.Name) (e : Executor) (detector : Bytes → Result (List Bytes))
        (bytes : Bytes) (s : State lib)
        → p.ndn_thread ≡ looping
        → Handed (fetch request e) p.state.output
        → after_fetch_complete detector e bytes p.state ≡ ok s
        → Step p (record p { state = s })
    fetch_fails :
        (request : Request lib.ndn.Name) (e : Executor) (error_code : ℕ) (error_msg : Bytes)
        (s : State lib)
        → p.ndn_thread ≡ looping
        → Handed (fetch request e) p.state.output
        → after_fetch_error error_code error_msg p.state ≡ ok s
        → Step p (record p { state = s })
    expires :
        (error sid : ℕ) (s : State lib)
        → p.timer_thread ≡ looping
        → Handed (arm (session_timer sid)) p.state.output
        → send_data error sid p.state ≡ ok s
        → Step p (record p { state = s })
    -- `processEvents` returns.
    face_ends : p.ndn_thread ≡ looping → Step p (record p { ndn_thread = ended })
    -- `m_timer_service.run()` returns.
    timer_ends :
        (handlers : ℕ)
        → p.timer_thread ≡ looping
        → asio.run_returns p.timer_works handlers ≡ true
        → Step p (record p { timer_thread = ended })
    ndn_joined :
        p.caller ≡ joins_ndn → p.ndn_thread ≡ ended → Step p (record p { caller = joins_timer })
    timer_joined :
        p.caller ≡ joins_timer → p.timer_thread ≡ ended → Step p (record p { caller = returned })

  -- The programs that `run` leads to.
  pub data Runs (mode : ℕ) : Program lib → Type 0 where
    begins : Runs mode (enter lib (producer lib mode))
    steps : {p q : Program lib} → Runs mode p → Step p q → Runs mode q
