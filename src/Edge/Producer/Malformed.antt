-- ===== src/Edge/Producer/Malformed.antt =====
-- A reply whose session id is no number.
use crowdsensing.Common.{
  ◌≡◌, refl, false, List, [], ◌∷◌, ◌++◌, none, Bytes, codes, ok, err, bad_lexical_cast, bind-ok,
}
use crowdsensing.Libraries.{Libraries}
use crowdsensing.Edge.Producer.State.{State}
use crowdsensing.Edge.Producer.Replies.{on_data}
use crowdsensing.Edge.Producer.Collect.{replies}

-- The payload has a session id, which is not the text of a number.
pub record IsMalformed (lib : Libraries) (payload : Bytes) : Type 0 where
  pub present :
      lib.json.is_null (lib.json.member (lib.json.parse payload) (codes "session_id")) ≡ false
  pub no_number :
      lib.boost.lexical_cast
        (lib.json.string_value (lib.json.member (lib.json.parse payload) (codes "session_id")))
      ≡ none

module _ {lib : Libraries} where
  on_data-IsMalformed :
      (p : Bytes) (s : State lib) → IsMalformed lib p → on_data p s ≡ err bad_lexical_cast
  unfolding on_data
  on_data-IsMalformed p s m = rw (m.present, m.no_number) refl

  -- Replies of which the first ones are handled and the next has a session id that is no number end
  -- with the exception `bad_lexical_cast`, whatever the next ones are.
  pub replies_malformed :
      (ps qs : List Bytes) (p : Bytes) (s t : State lib)
      → replies ps s ≡ ok t
      → IsMalformed lib p
      → replies (ps ++ p ∷ qs) s ≡ err bad_lexical_cast
  unfolding replies
  replies_malformed [] qs p s t done m = rw (on_data-IsMalformed p s m) refl
  replies_malformed (q ∷ ps) qs p s t done m =
      let (u, first, rest) = bind-ok (on_data q s) (replies ps) t done in
      rw first (replies_malformed ps qs p u t rest m)
