-- ===== src/Random.antt =====
-- `std::mt19937_64` as the C++ standard defines it, seeded with 1, which is the `m_id_generator` of
-- src/edge/src/producer.hpp.
use Prim.Native.Nat.{bit_xor, bit_and}
use native.Mathlib.Nat.{mod-lt}
use crowdsensing.Common.{
  ℕ, zero, suc, ◌+◌, ◌*◌, ◌/◌, ◌%◌, ◌^◌, ◌<◌, List, [], ◌∷◌, ◌++◌, none, some, arith, get_elem?,
  drop, u64_mod, ◌==◌, if◌then◌else◌,
}

-- The words after `x`, of which `left` are to come, the next one with number `i`.
seed_words : ℕ → ℕ → ℕ → List ℕ
seed_words zero i x = []
seed_words (suc left) i x =
    let next = (6364136223846793005 * bit_xor x (x / 2 ^ 62) + i) % u64_mod in
    next ∷ seed_words left (i + 1) next

-- The 312 words of the state.
seeded : ℕ → List ℕ
unfolding seed_words
seeded seed = seed ∷ seed_words 311 1 seed

word : List ℕ → ℕ → ℕ
word xs i = elim (get_elem? xs i) [ none ↦ 0 | some x ↦ x ]

-- The next word, from the oldest, the one after it, and the one 156 places on.
next_word : List ℕ → ℕ
unfolding word
next_word xs =
    let y = (word xs 0 / 2 ^ 31) * 2 ^ 31 + word xs 1 % 2 ^ 31 in
    let twist = if y % 2 == 1 then 13043109905998158313 else 0 in
    bit_xor (bit_xor (word xs 156) (y / 2)) twist

advance : ℕ → List ℕ → List ℕ
unfolding next_word
advance zero xs = xs
advance (suc n) xs = advance n (drop 1 xs ++ next_word xs ∷ [])

temper : ℕ → ℕ
temper x =
    let z = bit_xor x (bit_and (x / 2 ^ 29) 6148914691236517205) in
    let z' = bit_xor z (bit_and (z * 2 ^ 17 % u64_mod) 8202884508482404352) in
    let z'' = bit_xor z' (bit_and (z' * 2 ^ 37 % u64_mod) 18444473444759240704) in
    bit_xor z'' (z'' / 2 ^ 43)

-- The `n`-th number that the generator gives, from 0.
unfoldable pub random : ℕ → ℕ
unfolding seeded advance temper next_word
random n = temper (next_word (advance n (seeded 1))) % u64_mod

pub random-lt : (n : ℕ) → random n < 2 ^ 64
unfolding random
random-lt n = mod-lt _ (omega arith)
