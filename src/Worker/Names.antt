-- ===== src/Worker/Names.antt =====
-- src/worker/src/worker.cpp, the functions on Interest names: `ExtractSessionID`, `ExtractTargets`
-- and `decodeURI`.
pub mod RoundTrip
use crowdsensing.Common.{ℕ, List, [], ◌∷◌, Bytes, codes, Result, ok, err, back, pop_back, ◌>>=◌}
use crowdsensing.Boost.{Boost}
use crowdsensing.Uri.{Escape, replace_each}

abbrev pub uri_escapes : List Escape
uri_escapes =
    (b'2', b'3', b'#')
    ∷ (b'3', b'A', b':')
    ∷ (b'2', b'C', b',')
    ∷ (b'5', b'B', b'[')
    ∷ (b'5', b'D', b']')
    ∷ (b'2', b'0', b' ')
    ∷ (b'2', b'7', b'\'')
    ∷ (b'2', b'8', b'(')
    ∷ (b'2', b'9', b')')
    ∷ (b'2', b'A', b'*')
    ∷ []

unfoldable pub decode_uri : Boost → Bytes → Bytes
unfolding replace_each
decode_uri b uri = replace_each b uri_escapes uri

unfoldable pub extract_session_id : Boost → Bytes → Result Bytes
extract_session_id b interest_name = back (b.split interest_name b'/')

unfoldable pub extract_targets : Boost → Bytes → Result (List Bytes)
extract_targets b interest_name = do
  token_list ← pop_back (b.split interest_name b'/')
  keyword ← back token_list
  material ← back (b.split keyword b' ')
  last ← back (b.split material b':')
  let target = b.replace_all last (codes "[") []
  let target' = b.replace_all target (codes "]") []
  ok (b.split target' b',')
