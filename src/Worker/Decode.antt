-- ===== src/Worker/Decode.antt =====
-- src/worker/src/decode.cpp: reading a report.
use crowdsensing.Common.{◌≡◌, [], Bool, Bytes, codes, if◌then◌else◌}
use crowdsensing.Json.{Json, IsJson}
use crowdsensing.Worker.Encode.{encode}

pub record Decoder (j : Json) : Type 0 where
  pub json_object : j.Value

-- The constructor. A text that does not parse gives the null value.
unfoldable pub decoder : (j : Json) → Bytes → Decoder j
decoder j str = record { json_object = j.parse str }

module _ {j : Json} where
  unfoldable pub target_type : Decoder j → Bytes
  target_type d =
      if j.is_null d.json_object
      then []
      else (if j.is_null (j.member d.json_object (codes "target"))
          then []
          else j.string_value (j.member d.json_object (codes "target")))

  unfoldable pub session_id : Decoder j → Bytes
  session_id d =
      if j.is_null d.json_object
      then []
      else (if j.is_null (j.member d.json_object (codes "session_id"))
          then []
          else j.string_value (j.member d.json_object (codes "session_id")))

-- A report that was encoded is decoded to its target and its session id.
pub decoder-encode :
    (j : Json)
    → IsJson j
    → (location time target : Bytes) (found : Bool) (sid : Bytes)
    → (target_type (decoder j (encode j location time target found sid)) ≡ target)
      × (session_id (decoder j (encode j location time target found sid)) ≡ sid)
unfolding decoder target_type session_id encode
decoder-encode j laws location time target found sid = (
  rw (
    laws.parse-dump, laws.is_null-object, laws.member-object, laws.is_null-plain,
    laws.string_value-text,
  ),
  rw (
    laws.parse-dump, laws.is_null-object, laws.member-object, laws.is_null-plain,
    laws.string_value-text,
  ),
)
