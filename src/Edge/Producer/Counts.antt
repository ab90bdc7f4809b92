-- ===== src/Edge/Producer/Counts.antt =====
-- How many packets the edge has put, and how many sessions are open.
use crowdsensing.Common.{ℕ, suc, ◌+◌, ◌≤◌, ◌<◌, ◌≡◌, refl, List, [], ◌∷◌, ◌++◌, some, length, arith}
use crowdsensing.Edge.HashTable.{find, emplace, assign}
use crowdsensing.Edge.HashTable
use crowdsensing.Edge.SessionManager.{Manager, Timer, add}
use crowdsensing.Edge.Producer.State.{Action, put, express, arm, fetch}

-- How many packets were put.
abbrev pub puts : {N D : Type 0} → List (Action N D) → ℕ
puts [] = 0
puts (put d ∷ xs) = suc (puts xs)
puts (x ∷ xs) = puts xs

pub puts-append : {N D : Type 0} (xs ys : List (Action N D)) → puts (xs ++ ys) ≡ puts xs + puts ys
puts-append [] ys = omega arith
puts-append (put d ∷ xs) ys = omega (arith, puts-append xs ys)
puts-append (express r ∷ xs) ys = puts-append xs ys
puts-append (arm t ∷ xs) ys = puts-append xs ys
puts-append (fetch r e ∷ xs) ys = puts-append xs ys

module _ {ℓ} {V : Type ℓ} where
  pub length-assign : (k : ℕ) (v : V) (m : List (ℕ × V)) → length (assign k v m) ≡ length m
  unfolding assign
  length-assign k v [] = refl
  length-assign k v ((j, w) ∷ m) = ground (arith, length-assign k v m)

  length-erase : (k : ℕ) (m : List (ℕ × V)) → length (HashTable.erase k m) ≤ length m
  unfolding HashTable.erase
  length-erase k [] = omega arith
  length-erase k ((j, w) ∷ m) = ground (arith, length-erase k m)

  pub length-erase_found :
      (k : ℕ) (v : V) (m : List (ℕ × V))
      → find k m ≡ some v
      → length (HashTable.erase k m) < length m
  unfolding HashTable.erase find
  length-erase_found k v [] e = cc
  length-erase_found k v ((j, w) ∷ m) e = ground (arith, length-erase_found k v m, length-erase k m)

module _ {Data : Type 0} where
  pub length-add :
      (k : ℕ) (d : Data) (t : Timer) (m : Manager Data) → length (add k d t m) ≤ length m + 1
  unfolding add emplace
  length-add k d t m = ground arith
