-- ===== src/Reference/Json.antt =====
-- Values as a data type, printed as the number of fields and then each field.
use crowdsensing.Common.{
  ℕ, zero, suc, ◌≡◌, refl, ap, Bool, true, false, List, [], ◌∷◌, ◌++◌, Option, none, some, arith,
  Bytes, length, take, drop, ◌==◌, if◌then◌else◌,
}
use crowdsensing.Json.{Json, IsJson, Plain, text, flag, entry, of_entry}

pub data Value : Type 0 where
  null : Value
  plain : Plain → Value
  object : List (Bytes × Plain) → Value

abbrev print_text : Bytes → Bytes → Bytes
print_text s rest = length s ∷ (s ++ rest)

abbrev print_plain : Plain → Bytes → Bytes
print_plain (text s) rest = 0 ∷ print_text s rest
print_plain (flag false) rest = 1 ∷ rest
print_plain (flag true) rest = 2 ∷ rest

unfoldable pub print_fields : List (Bytes × Plain) → Bytes
print_fields [] = []
print_fields ((k, p) ∷ fs) = print_text k (print_plain p (print_fields fs))

unfoldable pub read_text : Bytes → Bytes × Bytes
read_text [] = ([], [])
read_text (n ∷ r) = (take n r, drop n r)

unfoldable pub read_plain : Bytes → Plain × Bytes
unfolding read_text
read_plain [] = (flag false, [])
read_plain (tag ∷ r) =
    if tag == 0
    then (text (read_text r).0, (read_text r).1)
    else (if tag == 1 then (flag false, r) else (flag true, r))

unfoldable pub read_fields : ℕ → Bytes → List (Bytes × Plain)
read_fields zero r = []
read_fields (suc n) r =
    let (k, r') = read_text r in let (p, r'') = read_plain r' in (k, p) ∷ read_fields n r''

take-length : (s rest : Bytes) → take (length s) (s ++ rest) ≡ s
take-length [] rest = refl
take-length (c ∷ s) rest = ap (◌∷◌ c) (take-length s rest)

drop-length : (s rest : Bytes) → drop (length s) (s ++ rest) ≡ rest
drop-length [] rest = refl
drop-length (c ∷ s) rest = drop-length s rest

read_text-print_text : (s rest : Bytes) → read_text (print_text s rest) ≡ (s, rest)
unfolding read_text
read_text-print_text s rest = ground (arith, take-length s rest, drop-length s rest)

read_plain-print_plain : (p : Plain) (rest : Bytes) → read_plain (print_plain p rest) ≡ (p, rest)
unfolding read_plain
read_plain-print_plain (text s) rest = ground (arith, take-length s rest, drop-length s rest)
read_plain-print_plain (flag false) rest = refl
read_plain-print_plain (flag true) rest = refl

read_fields-print_fields :
    (fs : List (Bytes × Plain)) → read_fields (length fs) (print_fields fs) ≡ fs
unfolding read_fields print_fields
read_fields-print_fields [] = refl
read_fields-print_fields ((k, p) ∷ fs) = rw (
  read_text-print_text k (print_plain p (print_fields fs)),
  read_plain-print_plain p (print_fields fs),
  read_fields-print_fields fs,
)

unfoldable pub print : Value → Bytes
unfolding print_fields
print null = []
print (plain p) = []
print (object fs) = length fs ∷ print_fields fs

unfoldable pub parse : Bytes → Value
unfolding read_fields read_text read_plain
parse [] = null
parse (n ∷ r) = object (read_fields n r)

unfoldable pub is_null : Value → Bool
is_null null = true
is_null _ = false

unfoldable pub of_option : Option Plain → Value
of_option none = null
of_option (some p) = plain p

unfoldable pub member : Value → Bytes → Value
unfolding of_option
member (object fs) k = of_option (entry k fs)
member _ k = null

unfoldable pub string_value : Value → Bytes
string_value (plain (text s)) = s
string_value _ = []

abbrev pub json : Json
json = record {
  Value = Value;
  null = null;
  plain = plain;
  object = object;
  dump = print;
  parse = parse;
  is_null = is_null;
  member = member;
  string_value = string_value;
}

of_option-of_entry : (o : Option Plain) → of_option o ≡ of_entry json o
unfolding of_option
of_option-of_entry none = refl
of_option-of_entry (some p) = refl

pub json-IsJson : IsJson json
unfolding print parse is_null member string_value
json-IsJson = record {
  parse-dump = λ fs. ap object (read_fields-print_fields fs);
  member-object = λ fs k. of_option-of_entry (entry k fs);
  member-null = λ k. refl;
  is_null-null = refl;
  is_null-plain = λ p. refl;
  is_null-object = λ fs. refl;
  string_value-text = λ s. refl;
}
