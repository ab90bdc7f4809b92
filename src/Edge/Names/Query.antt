-- ===== src/Edge/Names/Query.antt =====
-- The names that the parties exchange: a client's query, and what the edge asks of a location.
use crowdsensing.Common.{
  append_assoc, ℕ, ◌≡◌, ◌≢◌, ◌∙◌, ap, List, [], ◌∷◌, ◌++◌, arith, Bytes, codes, All, All-append,
  All-map, Lacks, back, ok, append-nil,
}
use crowdsensing.Boost.{Boost, IsBoost}
use crowdsensing.Boost.Split.{Lacks-join, split-join, back-split}
use crowdsensing.Boost.Replace.{without-append, without-Lacks, replace_all-without}
use crowdsensing.Edge.Names.{letters, strip_brackets}

-- A text with none of the characters that the names are cut at.
abbrev pub IsToken : Bytes → Type 0
IsToken s = Lacks b'/' s × Lacks b' ' s × Lacks b':' s × Lacks b',' s × Lacks b'[' s × Lacks b']' s

-- `prefix/function/tag:[location,…] tag:[target,…]`
pub record Query : Type 0 where
  pub prefix : Bytes
  pub function_name : Bytes
  pub location_tag : Bytes
  pub locations : List Bytes
  pub target_tag : Bytes
  pub targets : List Bytes

pub record IsQuery (q : Query) : Type 0 where
  pub function_name_token : Lacks b'/' q.function_name
  pub location_tag_token : IsToken q.location_tag
  pub locations_ne : q.locations ≢ []
  pub locations_token : All IsToken q.locations
  pub target_tag_token : IsToken q.target_tag
  pub targets_ne : q.targets ≢ []
  pub targets_token : All IsToken q.targets

-- `[item,…]`
abbrev pub bracketed : Boost → List Bytes → Bytes
bracketed b items = b'[' ∷ (b.join items (codes ",") ++ codes "]")

-- `tag:[item,…]`
abbrev pub key_text : Boost → Bytes → List Bytes → Bytes
key_text b tag items = tag ++ (b':' ∷ bracketed b items)

abbrev pub query_name : Boost → Query → Bytes
query_name b q =
    (q.prefix ++ (b'/' ∷ q.function_name))
    ++ (b'/'
        ∷ (key_text b q.location_tag q.locations ++ (b' ' ∷ key_text b q.target_tag q.targets)))

-- `/3/0/1/2/function/#a:[3012] tag:[target,…]`
abbrev pub worker_name : Boost → Query → Bytes → Bytes
worker_name b q l =
    (codes "/" ++ b.join (letters l) (codes "/"))
    ++ (codes "/"
        ++ (q.function_name
            ++ (codes "/"
                ++ (codes "#a:[" ++ (l ++ (codes "] " ++ key_text b q.target_tag q.targets))))))

module _ (b : Boost) (laws : IsBoost b) where
  Lacks-bracketed :
      (x : ℕ) (items : List Bytes)
      → items ≢ []
      → (b',' ≢ x) × (b'[' ≢ x) × (b']' ≢ x)
      → All (Lacks x) items
      → Lacks x (bracketed b items)
  Lacks-bracketed x items ne d h = (
    d.1,
    All-append (λ c. c ≢ x) _ (codes "]") (Lacks-join b laws b',' x items ne d.0 h) (d.2, tt),
  )

  -- A key holds neither of the characters that the name is cut at.
  pub Lacks-key_text :
      (x : ℕ) (tag : Bytes) (items : List Bytes)
      → items ≢ []
      → (b',' ≢ x) × (b'[' ≢ x) × (b']' ≢ x)
      → b':' ≢ x
      → Lacks x tag
      → All (Lacks x) items
      → Lacks x (key_text b tag items)
  Lacks-key_text x tag items ne d dc ht h =
      All-append (λ c. c ≢ x) tag _ ht (dc, Lacks-bracketed x items ne d h)

  strip_bracketed :
      (items : List Bytes)
      → items ≢ []
      → All IsToken items
      → strip_brackets b (bracketed b items) ≡ b.join items (codes ",")
  strip_bracketed items ne h =
      let inside = b.join items (codes ",") in
      let open_free : Lacks b'[' inside =
        Lacks-join b laws b',' b'[' items ne (omega arith)
          (All-map IsToken (Lacks b'[') (λ a t. t.4) items h) in
      let close_free : Lacks b']' inside =
        Lacks-join b laws b',' b']' items ne (omega arith)
          (All-map IsToken (Lacks b']') (λ a t. t.5) items h) in
      cc (
        replace_all-without b laws b'[' (bracketed b items),
        without-append b'[' inside (codes "]"),
        without-Lacks b'[' inside open_free,
        replace_all-without b laws b']' (inside ++ codes "]"),
        without-append b']' inside (codes "]"),
        without-Lacks b']' inside close_free,
        append-nil inside,
      )

  -- The items of a bracketed list are read back.
  pub items_of_bracketed :
      (items : List Bytes)
      → items ≢ []
      → All IsToken items
      → b.split (strip_brackets b (bracketed b items)) b',' ≡ items
  items_of_bracketed items ne h =
      ap (λ s. b.split s b',') (strip_bracketed items ne h)
      ∙ split-join b laws b',' items ne (All-map IsToken (Lacks b',') (λ a t. t.3) items h)

  -- So is the bracketed list of a key.
  pub back-key_text :
      (tag : Bytes) (items : List Bytes)
      → items ≢ []
      → All IsToken items
      → back (b.split (key_text b tag items) b':') ≡ ok (bracketed b items)
  back-key_text tag items ne h = back-split b laws b':' tag (bracketed b items) (
      Lacks-bracketed b':' items ne (omega arith)
        (All-map IsToken (Lacks b':') (λ a t. t.2) items h))

-- What the edge asks of one location is a query of its own, for that location alone.
abbrev pub narrowed : Boost → Query → Bytes → Query
narrowed b q l = record {
  prefix = codes "/" ++ b.join (letters l) (codes "/");
  function_name = q.function_name;
  location_tag = codes "#a";
  locations = l ∷ [];
  target_tag = q.target_tag;
  targets = q.targets;
}

pub worker_name-narrowed :
    (b : Boost)
    → IsBoost b
    → (q : Query) (l : Bytes) → worker_name b q l ≡ query_name b (narrowed b q l)
worker_name-narrowed b laws q l = simp (append_assoc, laws.join-one)

pub narrowed-IsQuery :
    (b : Boost) (q : Query) (l : Bytes) → IsQuery q → IsToken l → IsQuery (narrowed b q l)
narrowed-IsQuery b q l w h = record {
  function_name_token = w.function_name_token;
  location_tag_token = omega arith;
  locations_ne = λ z. cc;
  locations_token = (h, tt);
  target_tag_token = w.target_tag_token;
  targets_ne = w.targets_ne;
  targets_token = w.targets_token;
}
