-- ===== src/Uri.antt =====
-- The percent codes that both programs undo by `decodeURI`, one `replace_all` for each code.
use mathlib.Core.Path.{ap₂}
use crowdsensing.Common.{
  ◌+◌, ◌-◌, ◌/◌, ◌%◌, ltb, codes, ℕ, ◌≡◌, refl, ◌≢◌, ◌⊎◌, List, [], ◌∷◌, ◌++◌, arith, Bytes, All,
  Lacks, ◌==◌, if◌then◌else◌, ◌∙◌, ap,
}
use crowdsensing.Boost.{Boost, IsBoost}

-- The two hexadecimal digits of a code, and the character that it stands for.
abbrev pub Escape : Type 0
Escape = ℕ × ℕ × ℕ

abbrev pub code : ℕ → ℕ → Bytes
code h l = b'%' ∷ h ∷ l ∷ []

-- The statements of `decodeURI`, from first to last.
unfoldable pub replace_each : Boost → List Escape → Bytes → Bytes
replace_each b [] s = s
replace_each b ((h, l, c) ∷ t) s = replace_each b t (b.replace_all s (code h l) (c ∷ []))

-- How a character of the table is written in a URI.
abbrev pub encode_char : List Escape → ℕ → Bytes
encode_char [] x = x ∷ []
encode_char ((h, l, c) ∷ t) x = if c == x then code h l else encode_char t x

abbrev pub encode : List Escape → Bytes → Bytes
encode t [] = []
encode t (x ∷ s) = encode_char t x ++ encode t s

-- Percent-encoding as RFC 3986 has it: a percent sign and the two hexadecimal digits of the
-- character's code.
abbrev hex_digit : ℕ → ℕ
hex_digit n = if ltb n 10 then b'0' + n else b'A' + (n - 10)

abbrev pub percent : ℕ → Bytes
percent c = b'%' ∷ hex_digit (c / 16) ∷ hex_digit (c % 16) ∷ []

-- The ten characters that the programs expect encoded.
abbrev pub encoded_characters : Bytes
encoded_characters = codes "#:,[] '()*"

abbrev pub percent_char : Bytes → ℕ → Bytes
percent_char [] x = x ∷ []
percent_char (c ∷ cs) x = if c == x then percent c else percent_char cs x

abbrev pub percent_encode : Bytes → Bytes
percent_encode [] = []
percent_encode (x ∷ s) = percent_char encoded_characters x ++ percent_encode s

-- The table has the ten characters, each with the digits of its code.
pub encode-percent :
    (t : List Escape)
    → ((x : ℕ) → encode_char t x ≡ percent_char encoded_characters x)
    → (s : Bytes) → encode t s ≡ percent_encode s
encode-percent t h [] = refl
encode-percent t h (x ∷ s) = ap₂ ◌++◌ (h x) (encode-percent t h s)

-- An entry differs from the later ones in its character and in its code.
abbrev pub Apart : Escape → Escape → Type 0
Apart (h, l, c) (h', l', c') = (c ≢ c') × ((h ≢ h') ⊎ (l ≢ l')) × (h' ≢ b'%') × (l' ≢ b'%')

abbrev pub IsTable : List Escape → Type 0
IsTable [] = Unit {0}
IsTable (e ∷ t) = All (Apart e) t × IsTable t

module _ (b : Boost) (laws : IsBoost b) (h l c : ℕ) where
  encode_char_self : (t : List Escape) → All (Apart (h, l, c)) t → encode_char t c ≡ c ∷ []
  encode_char_self [] a = refl
  encode_char_self ((h', l', c') ∷ t) a = ground (arith, encode_char_self t a.1)

  -- The code of another character survives.
  skip_char :
      (t : List Escape) (x : ℕ) (rest : Bytes)
      → All (Apart (h, l, c)) t
      → x ≢ b'%'
      → b.replace_all (encode_char t x ++ rest) (code h l) (c ∷ [])
        ≡ encode_char t x ++ b.replace_all rest (code h l) (c ∷ [])
  skip_char [] x rest a nx = ground (arith, laws.replace_all-skip (code h l) (c ∷ []) x rest)
  skip_char ((h', l', c') ∷ t) x rest a nx = ground (
    arith,
    skip_char t x rest a.1,
    laws.replace_all-skip (code h l) (c ∷ []) b'%' (h' ∷ l' ∷ rest),
    laws.replace_all-skip (code h l) (c ∷ []) h' (l' ∷ rest),
    laws.replace_all-skip (code h l) (c ∷ []) l' rest,
  )

  -- One statement undoes one code.
  replace_one :
      (t : List Escape) (s : Bytes)
      → All (Apart (h, l, c)) t
      → Lacks b'%' s
      → b.replace_all (encode ((h, l, c) ∷ t) s) (code h l) (c ∷ []) ≡ encode t s
  replace_one t [] a p = laws.replace_all-nil (code h l) (c ∷ [])
  replace_one t (x ∷ s) a p = ground (
    arith,
    laws.replace_all-match (code h l) (c ∷ []) (encode ((h, l, c) ∷ t) s) (λ e. cc),
    encode_char_self t a,
    skip_char t x (encode ((h, l, c) ∷ t) s) a p.0,
    replace_one t s a p.1,
  )

-- Undoing the codes of a table gives back any text without a percent sign.
pub replace_each-encode :
    (b : Boost)
    → IsBoost b
    → (t : List Escape) (s : Bytes) → IsTable t
    → Lacks b'%' s
    → replace_each b t (encode t s) ≡ s
unfolding replace_each
replace_each-encode b laws [] [] a p = refl
replace_each-encode b laws [] (x ∷ s) a p = ap (◌∷◌ x) (replace_each-encode b laws [] s a p.1)
replace_each-encode b laws ((h, l, c) ∷ t) s a p =
    ap (replace_each b t) (replace_one b laws h l c t s a.0 p)
    ∙ replace_each-encode b laws t s a.1 p
