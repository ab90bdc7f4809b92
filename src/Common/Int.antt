-- ===== src/Common/Int.antt =====
-- `int`: signed integers over the native numbers. Values beyond 32 bits are not cut off.
use Prim.Native.Nat.{ℕ, suc, ◌+◌, ◌-◌, ◌/◌}
use crowdsensing.Common.Tests.{ltb, if◌then◌else◌}

-- `negsuc n` is -(n + 1).
pub data ℤ : Type 0 where
  pos : ℕ → ℤ
  negsuc : ℕ → ℤ

abbrev pub pos_part : ℤ → ℕ
pos_part (pos n) = n
pos_part (negsuc n) = 0

abbrev pub neg_part : ℤ → ℕ
neg_part (pos n) = 0
neg_part (negsuc n) = suc n

-- a - b, as an integer.
abbrev pub sub_ℕ : ℕ → ℕ → ℤ
sub_ℕ a b = if ltb a b then negsuc (b - a - 1) else pos (a - b)

infixl 65 ◌+ℤ◌ ◌-ℤ◌
unfoldable pub ◌+ℤ◌ : ℤ → ℤ → ℤ
a +ℤ b = sub_ℕ (pos_part a + pos_part b) (neg_part a + neg_part b)

unfoldable pub ◌-ℤ◌ : ℤ → ℤ → ℤ
a -ℤ b = sub_ℕ (pos_part a + neg_part b) (neg_part a + pos_part b)

-- `n / 2`, which rounds towards 0.
unfoldable pub half : ℤ → ℤ
half a = sub_ℕ (pos_part a / 2) (neg_part a / 2)

unfoldable pub max : ℤ → ℤ → ℤ
max a b = if ltb (pos_part a + neg_part b) (pos_part b + neg_part a) then b else a
