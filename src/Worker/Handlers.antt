-- ===== src/Worker/Handlers.antt =====
-- src/worker/src/worker.cpp, `onInterest` and `onRegisterFailed`. What the detector reports and what
-- the camera shows at that time are arguments.
use crowdsensing.Common.{
  ℕ, Bool, false, ◌&&◌, ◌||◌, List, [], ◌∷◌, ◌++◌, Option, none, some, Bytes, codes, Result, ok,
  deref, same, ltb, if◌then◌else◌, ◌>>=◌,
}
use crowdsensing.Libraries.{Libraries}
use crowdsensing.Worker.Names.{decode_uri, extract_targets, extract_session_id}
use crowdsensing.Worker.Encode.{encode}
use crowdsensing.Worker.Segments.{Worker, put, populate_store, process_segment_interest}

-- `std::find(…) != end()`
abbrev pub contains : List Bytes → Bytes → Bool
contains [] t = false
contains (x ∷ xs) t = same x t || contains xs t

module _ (lib : Libraries) where
  open lib use {boost, ndn, json}

  -- The mode that an Interest asks for: its parameters as a text, or `c`.
  abbrev pub requested_mode : ndn.Interest → Bytes
  requested_mode interest = elim (ndn.parameters interest) [ none ↦ codes "c" | some param ↦ param ]

  -- `m_location`
  abbrev pub location_text : Worker ndn → Bytes
  location_text w = boost.replace_all w.cd_string (codes "/") []

  -- The answer in edge mode: whether the first target is among what is seen.
  abbrev pub detection_reply : ndn.Interest → List Bytes → Bytes → Bytes → Worker ndn → ndn.Data
  detection_reply interest detection_result target session_id w =
      let result_str =
        encode json (location_text w) [] target (contains detection_result target) session_id in
      ndn.sign (
        ndn.set_content
          (ndn.set_freshness (ndn.set_name ndn.empty_data (ndn.get_name interest)) 10000)
          result_str)

  -- The names of a new version of the image.
  abbrev pub versioned : ℕ → ndn.Name → Worker ndn → Worker ndn
  versioned now prefix w =
      if ltb 0 (ndn.size prefix) && ndn.is_version prefix
      then record w { name_prefix = ndn.get_prefix prefix; versioned_prefix = prefix }
      else record w { name_prefix = prefix; versioned_prefix = ndn.append_version prefix now }

  -- `onInterest` once the name is read.
  unfoldable pub dispatch :
      ℕ → List Bytes → Bytes → ndn.Interest → List Bytes → Bytes → Worker ndn → Result (Worker ndn)
  dispatch now detection_result image interest [] session_id w = ok w
  dispatch now detection_result image interest (target ∷ more) session_id w =
      let edge_mode = requested_mode interest in
      if same edge_mode (codes "e")
      then ok (record w {
        output =
            w.output ++ put (detection_reply interest detection_result target session_id w) ∷ [];
      })
      else (if same edge_mode (codes "c")
          then (if ndn.is_segment (ndn.get_name interest)
              then process_segment_interest interest w
              else process_segment_interest interest (
                  populate_store image
                    (record (versioned now (ndn.get_name interest) w) { store = [] })))
          else ok w)

  unfoldable pub on_interest :
      ℕ → List Bytes → Bytes → ndn.Interest → Worker ndn → Result (Worker ndn)
  unfolding dispatch
  on_interest now detection_result image interest w = do
    let uri = decode_uri boost (ndn.to_uri (ndn.get_name interest))
    target_name ← extract_targets boost uri
    session_id ← extract_session_id boost uri
    dispatch now detection_result image interest target_name session_id w

  -- The argument is `m_ndn_face_ptr`, which the constructor leaves null.
  unfoldable pub on_register_failed : Option (Unit {0}) → Worker ndn → Result (Worker ndn)
  on_register_failed ndn_face_ptr w = deref ndn_face_ptr >>= λ face. ok w
