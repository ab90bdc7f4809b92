-- ===== src/Decimal.antt =====
-- `std::to_string` of an unsigned 64-bit number, which the edge puts behind each name it sends.
use native.Mathlib.Nat.{pow-suc}
use crowdsensing.Common.{
  All-map, Lacks, subst, ◌≢◌, ℕ, zero, suc, ◌+◌, ◌-◌, ◌*◌, ◌/◌, ◌%◌, ◌^◌, ◌<◌, ◌≡◌, true, false, [],
  ◌∷◌, Option, none, some, arith, Bytes, All, ltb, if◌then◌else◌,
}

-- The digits of `n`, before those in `out`. A 64-bit number has at most 20.
digits : ℕ → ℕ → Bytes → Bytes
digits zero n out = out
digits (suc f) n out = elim (ltb n 10) [
  | true ↦ (b'0' + n % 10) ∷ out
  | false ↦ digits f (n / 10) ((b'0' + n % 10) ∷ out)
]

unfoldable pub to_string : ℕ → Bytes
unfolding digits
to_string n = digits 20 n []

abbrev pub IsDigit : ℕ → Type 0
IsDigit c = (b'0' < c + 1) × (c < b'9' + 1)

digits-All : (f n : ℕ) (out : Bytes) → All IsDigit out → All IsDigit (digits f n out)
unfolding digits
digits-All zero n out h = h
digits-All (suc f) n out h =
    ground (arith, digits-All f (n / 10) ((b'0' + n % 10) ∷ out) (omega arith, h))

pub to_string-IsDigit : (n : ℕ) → All IsDigit (to_string n)
unfolding to_string
to_string-IsDigit n = digits-All 20 n [] tt

-- The number that a text of digits spells behind `acc`.
unfoldable pub read : ℕ → Bytes → Option ℕ
read acc [] = some acc
read acc (c ∷ s) =
    if ltb c b'0' then none else if ltb b'9' c then none else read (acc * 10 + (c - b'0')) s

read_digit : (n : ℕ) (out : Bytes) → read (n / 10) ((b'0' + n % 10) ∷ out) ≡ read n out
unfolding read
read_digit n out = ground arith

read-digits : (f n : ℕ) (out : Bytes) → n < 10 ^ f → read 0 (digits f n out) ≡ read n out
unfolding digits
read-digits zero n out h = ground arith
read-digits (suc f) n out h =
    ground (arith, pow-suc 10 f, read_digit n out, read-digits f (n / 10) ((b'0' + n % 10) ∷ out))

-- A 64-bit number is read back from its print.
pub read-to_string : (n : ℕ) → n < 2 ^ 64 → read 0 (to_string n) ≡ some n
unfolding to_string read
read-to_string n h = read-digits 20 n [] (omega arith)

-- So a print holds no byte that is not a digit.
pub to_string-Lacks : (x n : ℕ) → ¬ IsDigit x → Lacks x (to_string n)
to_string-Lacks x n h =
    All-map IsDigit (λ c. c ≢ x) (λ c d e. h (subst IsDigit e d)) (to_string n)
      (to_string-IsDigit n)
