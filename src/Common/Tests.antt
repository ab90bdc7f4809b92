-- ===== src/Common/Tests.antt =====
-- Boolean tests on the native numbers, the conditional, and splits on a computed value.
use Prim.Native.Nat.{ℕ, ◌<◌, ◌≤◌, compare, Ordering}
use mathlib.Core.Path.{◌≡◌, refl}
use mathlib.Core.Logic.{◌↔◌, ◌⊎◌, ◌≢◌, inl, inr}
use mathlib.Core.Bool.{Bool, true, false, ◌&&◌}
use mathlib.Core.List.{List, [], ◌∷◌}
use mathlib.Core.Option.{Option, none, some}
use native.Mathlib.Omega.{arith}

abbrev pub ltb : ℕ → ℕ → Bool
ltb a b = elim (compare a b) [ Ordering.lt ↦ true | _ ↦ false ]

infix 50 ◌==◌
abbrev pub ◌==◌ : ℕ → ℕ → Bool
a == b = elim (compare a b) [ Ordering.eq ↦ true | _ ↦ false ]

infix 1 if◌then◌else◌
abbrev pub if◌then◌else◌ {ℓ} : {A : Type ℓ} → Bool → A → A → A
if true then x else y = x
if false then x else y = y

pub lt→ltb : (a b : ℕ) → a < b → ltb a b ≡ true
lt→ltb a b h = ground arith

pub le→ltb : (a b : ℕ) → b ≤ a → ltb a b ≡ false
le→ltb a b h = ground arith

pub ==_iff : (a b : ℕ) → ((a == b) ≡ true) ↔ (a ≡ b)
==_iff a b = ground arith

pub ==_refl : (a : ℕ) → (a == a) ≡ true
==_refl a = ground arith

pub ne→== : (a b : ℕ) → a ≢ b → (a == b) ≡ false
ne→== a b h = ground arith

pub ltb→lt : (a b : ℕ) → ltb a b ≡ true → a < b
ltb→lt a b h = ground arith

pub ltb→le : (a b : ℕ) → ltb a b ≡ false → b ≤ a
ltb→le a b h = ground arith

pub Bool-cases : (b : Bool) → (b ≡ true) ⊎ (b ≡ false)
Bool-cases true = inl refl
Bool-cases false = inr refl

pub Option-cases {ℓ} : {A : Type ℓ} (o : Option A) → (o ≡ none) ⊎ ((a : A) × (o ≡ some a))
Option-cases none = inl refl
Option-cases (some a) = inr (a, refl)

-- Equality of byte strings, as `std::string::operator==`.
abbrev pub same : List ℕ → List ℕ → Bool
same [] [] = true
same [] (y ∷ ys) = false
same (x ∷ xs) [] = false
same (x ∷ xs) (y ∷ ys) = (x == y) && same xs ys

pub same_iff : (xs ys : List ℕ) → (same xs ys ≡ true) ↔ (xs ≡ ys)
same_iff [] [] = ground arith
same_iff [] (y ∷ ys) = ground arith
same_iff (x ∷ xs) [] = ground arith
same_iff (x ∷ xs) (y ∷ ys) = ground (arith, same_iff xs ys)
