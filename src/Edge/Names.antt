-- ===== src/Edge/Names.antt =====
-- src/edge/src/producer.cpp, the functions on Interest names: `convertInterestName`,
-- `ExtractTargets`, `ExtractLocname` and `decodeURI`. `back()` and `pop_back()` on an empty vector
-- are undefined behaviour and end in `err no_element`.
pub mod Query
pub mod RoundTrip
use crowdsensing.Common.{
  ℕ, Bool, List, [], ◌∷◌, ◌++◌, map, Bytes, codes, Result, ok, err, back, pop_back, ◌>>=◌,
}
use crowdsensing.Boost.{Boost}
use crowdsensing.Uri.{Escape, replace_each}

abbrev pub uri_escapes : List Escape
uri_escapes =
    (b'2', b'3', b'#')
    ∷ (b'3', b'A', b':')
    ∷ (b'2', b'C', b',')
    ∷ (b'5', b'B', b'[')
    ∷ (b'5', b'D', b']')
    ∷ (b'2', b'0', b' ')
    ∷ (b'2', b'7', b'\'')
    ∷ (b'2', b'8', b'(')
    ∷ (b'2', b'9', b')')
    ∷ (b'2', b'A', b'*')
    ∷ []

unfoldable pub decode_uri : Boost → Bytes → Bytes
unfolding replace_each
decode_uri b uri = replace_each b uri_escapes uri

-- The loop over `substr(j, 1)`.
abbrev pub letters : Bytes → List Bytes
letters [] = []
letters (c ∷ s) = (c ∷ []) ∷ letters s

abbrev pub location_names : Boost → List Bytes → List Bytes
location_names b [] = []
location_names b (l ∷ ls) = (codes "/" ++ b.join (letters l) (codes "/")) ∷ location_names b ls

-- The last loop, which appends to the caller's list; both lists have an entry for each location.
abbrev pub push_names : Bytes → Bytes → List Bytes → List Bytes → List Bytes → List Bytes
push_names function_name target [] locations out = out
push_names function_name target (n ∷ ns) [] out = out
push_names function_name target (n ∷ ns) (l ∷ ls) out = push_names function_name target ns ls (
    out
    ++ (n
        ++ (codes "/"
            ++ (function_name ++ (codes "/" ++ (codes "#a:[" ++ (l ++ (codes "] " ++ target)))))))
      ∷ [])

-- The text after the last colon of `key`, less its brackets.
abbrev pub strip_brackets : Boost → Bytes → Bytes
strip_brackets b s = b.replace_all (b.replace_all s (codes "[") []) (codes "]") []

unfoldable pub convert_interest_name : Boost → Bytes → List Bytes → Result (List Bytes)
convert_interest_name b interest_name interest_name_list = do
  let token_list = b.split interest_name b'/'
  keyword ← back token_list
  token_list' ← pop_back token_list
  function_name ← back token_list'
  routable ← pop_back token_list'
  let key_list = b.split keyword b' '
  target ← back key_list
  key_list' ← pop_back key_list
  location_key ← back key_list'
  last ← back (b.split location_key b':')
  let location_list = b.split (strip_brackets b last) b','
  ok (
      push_names function_name target (location_names b location_list) location_list
        interest_name_list)

unfoldable pub extract_targets : Boost → Bytes → Result (List Bytes)
extract_targets b interest_name = do
  keyword ← back (b.split interest_name b'/')
  material ← back (b.split keyword b' ')
  target ← back (b.split material b':')
  ok (b.split (strip_brackets b target) b',')

unfoldable pub extract_locname : Boost → Bytes → Result (List Bytes)
extract_locname b interest_name = do
  token_list ← pop_back (b.split interest_name b'/')
  keyword ← back token_list
  token_list' ← pop_back token_list
  function_name ← back token_list'
  routable ← pop_back token_list'
  let key_list = b.split keyword b' '
  target ← back key_list
  key_list' ← pop_back key_list
  location_key ← back key_list'
  last ← back (b.split location_key b':')
  ok (b.split (strip_brackets b last) b',')
