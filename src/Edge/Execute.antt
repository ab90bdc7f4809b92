-- ===== src/Edge/Execute.antt =====
-- src/edge/src/execute.cpp: what happens when the image of a location has been fetched.
pub mod Cloud
use crowdsensing.Common.{◌>>=◌, ℕ, Bool, true, false, ◌||◌, List, [], ◌∷◌, Bytes, Result, ok, same}
use crowdsensing.Libraries.{Libraries}
use crowdsensing.Edge.Encode.{encode}
use crowdsensing.Edge.Producer.State.{State, Executor}
use crowdsensing.Edge.Producer.Replies.{adddata}

-- `std::find(…) != end()`
abbrev pub contains : List Bytes → Bytes → Bool
contains [] t = false
contains (x ∷ xs) t = same x t || contains xs t

-- What the executor reports on what was detected.
unfoldable pub report : (lib : Libraries) → List Bytes → Executor → Bytes
report lib detection_result e =
    let is_found = contains detection_result e.target_name in
    encode lib.json e.location_name [] e.target_name is_found e.session_id

module _ {lib : Libraries} where
  -- The argument `detector` is what OpenCV's `reshape(3, 480)` and then `m_detector->detect` make of
  -- the bytes; either may throw, and nothing here catches it.
  unfoldable pub after_fetch_complete :
      (Bytes → Result (List Bytes)) → Executor → Bytes → State lib → Result (State lib)
  after_fetch_complete detector e fetched s =
      detector (lib.ndn.block_value fetched) >>= λ detection_result.
      adddata (report lib detection_result e) s

  -- A failed fetch is logged, and nothing else.
  unfoldable pub after_fetch_error : ℕ → Bytes → State lib → Result (State lib)
  after_fetch_error error_code error_msg s = ok s
