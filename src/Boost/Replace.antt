-- ===== src/Boost/Replace.antt =====
-- `replace_all` of one character by nothing.
use crowdsensing.Common.{ℕ, ◌≡◌, refl, [], ◌∷◌, ◌++◌, arith, Bytes, Lacks, ◌==◌, if◌then◌else◌}
use crowdsensing.Boost.{Boost, IsBoost}

-- The text less every `c`.
abbrev pub without : ℕ → Bytes → Bytes
without c [] = []
without c (x ∷ s) = if c == x then without c s else x ∷ without c s

pub without-append : (c : ℕ) (s t : Bytes) → without c (s ++ t) ≡ without c s ++ without c t
without-append c [] t = refl
without-append c (x ∷ s) t = ground (arith, without-append c s t)

pub without-Lacks : (c : ℕ) (s : Bytes) → Lacks c s → without c s ≡ s
without-Lacks c [] h = refl
without-Lacks c (x ∷ s) h = ground (arith, without-Lacks c s)

pub replace_all-without :
    (b : Boost) → IsBoost b → (c : ℕ) (s : Bytes) → b.replace_all s (c ∷ []) [] ≡ without c s
replace_all-without b laws c [] = laws.replace_all-nil (c ∷ []) []
replace_all-without b laws c (x ∷ s) = ground (
  arith,
  laws.replace_all-match (c ∷ []) [] s (λ e. cc),
  laws.replace_all-skip (c ∷ []) [] x s,
  replace_all-without b laws c s,
)
