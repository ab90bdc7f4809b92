-- ===== src/Boost.antt =====
-- The functions of Boost that the sources call: `boost::algorithm::split` with `is_any_of` of one
-- character, `join`, `replace_all`, and `boost::lexical_cast<uint64_t>`. Boost is not part of the
-- repository, so they are a parameter, with their documented behaviour as laws.
pub mod Split
pub mod Replace
use crowdsensing.Common.{
  ℕ, ◌<◌, ◌^◌, ◌≡◌, ◌≢◌, Bool, true, false, ◌&&◌, List, [], ◌∷◌, ◌++◌, Option, some, Bytes, All,
  Lacks, ◌==◌,
}
use crowdsensing.Decimal.{to_string}

pub record Boost : Type 0 where
  -- `split(result, text, is_any_of("c"))`
  pub split : Bytes → ℕ → List Bytes
  pub join : List Bytes → Bytes → Bytes
  -- `replace_all(text, search, format)`
  pub replace_all : Bytes → Bytes → Bytes → Bytes
  -- `none` is a thrown `bad_lexical_cast`.
  pub lexical_cast : Bytes → Option ℕ

abbrev pub starts_with : Bytes → Bytes → Bool
starts_with [] s = true
starts_with (p ∷ ps) [] = false
starts_with (p ∷ ps) (c ∷ s) = (p == c) && starts_with ps s

-- `split` cuts at every separator, keeps empty parts, and gives at least one part; `join` puts the
-- separator between the parts; `replace_all` goes from left to right over occurrences that do not
-- overlap; `lexical_cast` reads what `std::to_string` writes.
pub record IsBoost (b : Boost) : Type 0 where
  pub split-ne-nil : (s : Bytes) (sep : ℕ) → b.split s sep ≢ []
  pub split-Lacks : (s : Bytes) (sep : ℕ) → All (Lacks sep) (b.split s sep)
  pub join-split : (s : Bytes) (sep : ℕ) → b.join (b.split s sep) (sep ∷ []) ≡ s
  pub join-one : (p sep : Bytes) → b.join (p ∷ []) sep ≡ p
  pub join-cons :
      (p q : Bytes) (ps : List Bytes) (sep : Bytes)
      → b.join (p ∷ q ∷ ps) sep ≡ p ++ (sep ++ b.join (q ∷ ps) sep)
  pub replace_all-nil : (search format : Bytes) → b.replace_all [] search format ≡ []
  pub replace_all-match :
      (search format s : Bytes)
      → search ≢ []
      → b.replace_all (search ++ s) search format ≡ format ++ b.replace_all s search format
  pub replace_all-skip :
      (search format : Bytes) (c : ℕ) (s : Bytes)
      → starts_with search (c ∷ s) ≡ false
      → b.replace_all (c ∷ s) search format ≡ c ∷ b.replace_all s search format
  pub lexical_cast-to_string : (n : ℕ) → n < 2 ^ 64 → b.lexical_cast (to_string n) ≡ some n
