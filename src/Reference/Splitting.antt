-- ===== src/Reference/Splitting.antt =====
-- The Boost functions by their plain definitions.
use crowdsensing.Common.{
  ℕ, zero, suc, ◌-◌, ◌≡◌, ◌≢◌, refl, true, false, List, [], ◌∷◌, ◌++◌, arith, Bytes, All, Lacks,
  length, ◌==◌, if◌then◌else◌,
}
use crowdsensing.Boost.{Boost, IsBoost, starts_with}
use crowdsensing.Decimal.{read, read-to_string}

unfoldable pub prepend : ℕ → List Bytes → List Bytes
prepend c [] = (c ∷ []) ∷ []
prepend c (p ∷ ps) = (c ∷ p) ∷ ps

unfoldable pub split : Bytes → ℕ → List Bytes
unfolding prepend
split [] sep = [] ∷ []
split (c ∷ s) sep = let rest = split s sep in if sep == c then [] ∷ rest else prepend c rest

unfoldable pub join : List Bytes → Bytes → Bytes
join [] sep = []
join (p ∷ []) sep = p
join (p ∷ q ∷ ps) sep = p ++ (sep ++ join (q ∷ ps) sep)

-- The first argument counts the characters of an occurrence that are still to be passed over.
unfoldable pub replace_from : ℕ → Bytes → Bytes → Bytes → Bytes
replace_from k search format [] = []
replace_from (suc k) search format (c ∷ s) = replace_from k search format s
replace_from zero search format (c ∷ s) = elim (starts_with search (c ∷ s)) [
  | true ↦ format ++ replace_from (length search - 1) search format s
  | false ↦ c ∷ replace_from zero search format s
]

split-ne-nil : (s : Bytes) (sep : ℕ) → split s sep ≢ []
unfolding split prepend
split-ne-nil [] sep e = cc
split-ne-nil (c ∷ s) sep e = ground (arith, split-ne-nil s sep)

prepend-Lacks :
    (sep c : ℕ) (ps : List Bytes) → c ≢ sep → All (Lacks sep) ps → All (Lacks sep) (prepend c ps)
unfolding prepend
prepend-Lacks sep c [] ne h = ((ne, tt), tt)
prepend-Lacks sep c (p ∷ ps) ne h = ((ne, h.0), h.1)

split-Lacks : (s : Bytes) (sep : ℕ) → All (Lacks sep) (split s sep)
unfolding split
split-Lacks [] sep = (tt, tt)
split-Lacks (c ∷ s) sep = ground (arith, split-Lacks s sep, prepend-Lacks sep c (split s sep))

join-nil-cons : (ps : List Bytes) (sep : Bytes) → ps ≢ [] → join ([] ∷ ps) sep ≡ sep ++ join ps sep
unfolding join
join-nil-cons [] sep ne = absurd (ne refl)
join-nil-cons (p ∷ ps) sep ne = refl

join-prepend :
    (c : ℕ) (ps : List Bytes) (sep : Bytes) → ps ≢ [] → join (prepend c ps) sep ≡ c ∷ join ps sep
unfolding join prepend
join-prepend c [] sep ne = absurd (ne refl)
join-prepend c (p ∷ []) sep ne = refl
join-prepend c (p ∷ q ∷ ps) sep ne = refl

join-split : (s : Bytes) (sep : ℕ) → join (split s sep) (sep ∷ []) ≡ s
unfolding split
join-split [] sep = unfold join in refl
join-split (c ∷ s) sep = ground (
  arith,
  join-split s sep,
  join-nil-cons (split s sep) (sep ∷ []) (split-ne-nil s sep),
  join-prepend c (split s sep) (sep ∷ []) (split-ne-nil s sep),
)

starts_with-append : (p s : Bytes) → starts_with p (p ++ s) ≡ true
starts_with-append [] s = refl
starts_with-append (c ∷ p) s = ground (arith, starts_with-append p s)

replace_from_past :
    (search format p s : Bytes)
    → replace_from (length p) search format (p ++ s) ≡ replace_from 0 search format s
unfolding replace_from
replace_from_past search format [] s = refl
replace_from_past search format (c ∷ p) s = replace_from_past search format p s

replace_from_match :
    (search format s : Bytes)
    → search ≢ []
    → replace_from 0 search format (search ++ s) ≡ format ++ replace_from 0 search format s
unfolding replace_from
replace_from_match [] format s ne = absurd (ne refl)
replace_from_match (c ∷ p) format s ne =
    ground (arith, starts_with-append (c ∷ p) s, replace_from_past (c ∷ p) format p s)

replace_from_skip :
    (search format : Bytes) (c : ℕ) (s : Bytes)
    → starts_with search (c ∷ s) ≡ false
    → replace_from 0 search format (c ∷ s) ≡ c ∷ replace_from 0 search format s
unfolding replace_from
replace_from_skip search format c s h = rw (h, replace_from)

abbrev pub boost : Boost
boost = record {
  split = split;
  join = join;
  replace_all = λ s search format. replace_from 0 search format s;
  lexical_cast = read 0;
}

pub boost-IsBoost : IsBoost boost
unfolding split join replace_from
boost-IsBoost = record {
  split-ne-nil = split-ne-nil;
  split-Lacks = split-Lacks;
  join-split = join-split;
  join-one = λ p sep. refl;
  join-cons = λ p q ps sep. refl;
  replace_all-nil = λ search format. refl;
  replace_all-match = replace_from_match;
  replace_all-skip = replace_from_skip;
  lexical_cast-to_string = read-to_string;
}
