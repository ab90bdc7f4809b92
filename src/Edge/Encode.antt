-- ===== src/Edge/Encode.antt =====
-- src/edge/src/encode.cpp: what a detection reports, as a JSON text.
use crowdsensing.Common.{Bool, [], ◌∷◌, Bytes, codes}
use crowdsensing.Json.{Json, text, flag}

unfoldable pub encode : Json → Bytes → Bytes → Bytes → Bool → Bytes → Bytes
encode j location_str time_str target_str is_found session_id_str = j.dump (
    j.object (
      (codes "isFound", flag is_found)
      ∷ (codes "target", text target_str)
      ∷ (codes "location", text location_str)
      ∷ (codes "time", text time_str)
      ∷ (codes "session_id", text session_id_str)
      ∷ []))
