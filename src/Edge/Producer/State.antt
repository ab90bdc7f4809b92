-- ===== src/Edge/Producer/State.antt =====
-- The members of `Producer`, and what its handlers hand to the face and to the timer service.
use crowdsensing.Common.{
  ℕ, ◌+◌, ◌%◌, Bool, List, [], Option, none, Bytes, Result, ok, err, division_by_zero, deref,
  out_of_range, ltb, ◌==◌, if◌then◌else◌, ◌>>=◌,
}
use crowdsensing.Libraries.{Libraries}
use crowdsensing.Edge.SessionManager.{Manager, Timer}

-- An Interest as the handlers build it.
pub record Request (Name : Type 0) : Type 0 where
  pub name : Name
  pub can_be_prefix : Bool
  pub must_be_fresh : Bool
  pub lifetime_ms : ℕ
  pub parameters : Option Bytes

-- src/edge/src/execute.hpp: what is kept while an image is fetched. The detector and the producer
-- that it points to are arguments of its methods.
pub record Executor : Type 0 where
  pub fetcher_name : Bytes
  pub location_name : Bytes
  pub target_name : Bytes
  pub session_id : Bytes

-- What leaves the handlers, in order.
pub data Action (Name Data : Type 0) : Type 0 where
  -- `Face::put`
  put : Data → Action Name Data
  -- `Face::expressInterest`
  express : Request Name → Action Name Data
  -- `steady_timer::async_wait`
  arm : Timer → Action Name Data
  -- `SegmentFetcher::start`, with the handler of its end.
  fetch : Request Name → Executor → Action Name Data

pub record State (lib : Libraries) : Type 0 where
  pub num_thread : ℕ
  pub num_queue : ℕ
  pub current_queue : ℕ
  pub edge_mode : ℕ
  -- How many ids the generator has given.
  pub drawn : ℕ
  pub target_name : List Bytes
  pub location_name : List Bytes
  pub number_of_arrival_interest : ℕ
  pub issued_interest : ℕ
  -- `m_ndn_face_ptr`, `none` while it is null.
  pub ndn_face_ptr : Option (Unit {0})
  -- The singleton `SessionManager::instance()`.
  pub sessions : Manager lib.ndn.Data
  pub output : List (Action lib.ndn.Name lib.ndn.Data)

-- The constructor; the mode is stored in a `uint8_t`.
unfoldable pub producer : (lib : Libraries) → ℕ → State lib
producer lib mode = record {
  num_thread = 0;
  num_queue = 0;
  current_queue = 0;
  edge_mode = mode % 256;
  drawn = 0;
  target_name = [];
  location_name = [];
  number_of_arrival_interest = 0;
  issued_interest = 0;
  ndn_face_ptr = none;
  sessions = [];
  output = [];
}

module _ {lib : Libraries} where
  -- `io_service()`: the index of the queue that is chosen. The pool has `m_num_queue` queues.
  unfoldable pub io_service : State lib → Result (ℕ × State lib)
  io_service s =
      let next = s.current_queue + 1 in
      if s.num_queue == 0
      then err division_by_zero
      else if next % s.num_queue == 0
      then err division_by_zero
      else (let chosen = next % (next % s.num_queue) in
          if ltb chosen s.num_queue
          then ok (chosen, record s { current_queue = chosen })
          else err out_of_range)

  -- `onRegisterFailed`: a call through `m_ndn_face_ptr`.
  unfoldable pub on_register_failed : State lib → Result (State lib)
  on_register_failed s = deref s.ndn_face_ptr >>= λ face. ok s
