-- ===== src/Json.antt =====
-- The part of json11 that the sources call. It is not part of the repository, so it is a parameter,
-- with its documented behaviour as laws.
use crowdsensing.Common.{
  ◌≡◌, Bool, true, false, List, [], ◌∷◌, Option, none, some, Bytes, same, if◌then◌else◌,
}

-- The values that the sources store in an object: `std::string` and `bool`.
pub data Plain : Type 0 where
  text : Bytes → Plain
  flag : Bool → Plain

-- The entry of an initializer list whose key comes first.
abbrev pub entry : Bytes → List (Bytes × Plain) → Option Plain
entry k [] = none
entry k ((j, v) ∷ fs) = if same j k then some v else entry k fs

pub record Json : Type 1 where
  pub Value : Type 0
  pub null : Value
  pub plain : Plain → Value
  -- `json11::Json::object{ … }`
  pub object : List (Bytes × Plain) → Value
  pub dump : Value → Bytes
  -- `json11::Json::parse`, which gives the null value on an error.
  pub parse : Bytes → Value
  pub is_null : Value → Bool
  -- `operator[]`
  pub member : Value → Bytes → Value
  pub string_value : Value → Bytes

abbrev pub of_entry : (j : Json) → Option Plain → j.Value
of_entry j none = j.null
of_entry j (some p) = j.plain p

-- What is printed is read back; a missing key reads as null, and so does any key of null.
pub record IsJson (j : Json) : Type 0 where
  pub parse-dump : (fs : List (Bytes × Plain)) → j.parse (j.dump (j.object fs)) ≡ j.object fs
  pub member-object :
      (fs : List (Bytes × Plain)) (k : Bytes) → j.member (j.object fs) k ≡ of_entry j (entry k fs)
  pub member-null : (k : Bytes) → j.member j.null k ≡ j.null
  pub is_null-null : j.is_null j.null ≡ true
  pub is_null-plain : (p : Plain) → j.is_null (j.plain p) ≡ false
  pub is_null-object : (fs : List (Bytes × Plain)) → j.is_null (j.object fs) ≡ false
  pub string_value-text : (s : Bytes) → j.string_value (j.plain (text s)) ≡ s
