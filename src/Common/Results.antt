-- ===== src/Common/Results.antt =====
-- What a C++ function may do besides returning: exceptions, and undefined behaviour met on the way.
use mathlib.Core.Path.{◌≡◌, refl, subst}
use mathlib.Core.List.{List, [], ◌∷◌}
use mathlib.Core.Option.{Option, none, some}
use Prim.Native.Nat.{ℕ}
use mathlib.Core.Logic.{◌⊎◌, inl, inr}
use crowdsensing.Common.Lists.{get_elem?}

-- `out_of_range`, `bad_lexical_cast`, `camera_open_exception` and `system_error` are exceptions, and
-- so is `failed_assert` where a library checks; the others are undefined behaviour:
-- `back()`, `pop_back()` or an index on a vector without that element, a null pointer that is
-- read, a reference whose object is gone, a write beside a read that no lock keeps apart, `%` by
-- zero, a failed `BOOST_ASSERT` and a variable that was never set.
pub data Fault : Type 0 where
  out_of_range bad_lexical_cast no_element null_pointer dangling_reference data_race
        division_by_zero failed_assert camera_open_exception indeterminate_value system_error :
      Fault

pub data Result {ℓ} (A : Type ℓ) : Type ℓ where
  ok : A → Result A
  err : Fault → Result A

infixl 5 ◌>>=◌
abbrev pub ◌>>=◌ {ℓ κ} : {A : Type ℓ} {B : Type κ} → Result A → (A → Result B) → Result B
ok a >>= f = f a
err e >>= f = err e

-- `v[i]`
unfoldable pub at_index {ℓ} : {A : Type ℓ} → List A → ℕ → Result A
at_index xs i = elim (get_elem? xs i) [ none ↦ err no_element | some x ↦ ok x ]

pub at_index-some {ℓ} :
    {A : Type ℓ} (xs : List A) (i : ℕ) (x : A) → get_elem? xs i ≡ some x → at_index xs i ≡ ok x
unfolding at_index
at_index-some xs i x e = rw (e, at_index)

-- `assert`, and the checks of a library that throw.
abbrev pub require {ℓ} : {A : Type ℓ} → Option A → Result A
require none = err failed_assert
require (some a) = ok a

-- `catch(std::out_of_range&)` with a handler that returns the value given.
abbrev pub catch_out_of_range {ℓ} : {A : Type ℓ} → Result A → A → Result A
catch_out_of_range (ok a) d = ok a
catch_out_of_range (err out_of_range) d = ok d
catch_out_of_range (err e) d = err e

-- Reading through a pointer.
abbrev pub deref {ℓ} : {A : Type ℓ} → Option A → Result A
deref none = err null_pointer
deref (some a) = ok a

module _ {ℓ} {A : Type ℓ} where
  -- `v[0]`.
  abbrev pub front : List A → Result A
  front [] = err no_element
  front (x ∷ xs) = ok x

  -- `v.back()`.
  abbrev pub back : List A → Result A
  back [] = err no_element
  back (x ∷ []) = ok x
  back (x ∷ y ∷ ys) = back (y ∷ ys)

  -- `v.pop_back()`.
  abbrev pub pop_back : List A → Result (List A)
  pop_back [] = err no_element
  pop_back (x ∷ []) = ok []
  pop_back (x ∷ y ∷ ys) = pop_back (y ∷ ys) >>= λ zs. ok (x ∷ zs)

-- What a call that returns ensures of its result; a fault ends the call.
abbrev pub Ensures {ℓ κ} : {A : Type ℓ} → (A → Type κ) → Result A → Type κ
Ensures P (ok a) = P a
Ensures P (err e) = Unit

pub Ensures-bind {ℓ κ μ ν} :
    {A : Type ℓ} {B : Type κ} (P : A → Type μ) (Q : B → Type ν) (r : Result A) (f : A → Result B)
    → Ensures P r
    → ((a : A) → P a → Ensures Q (f a))
    → Ensures Q (r >>= f)
Ensures-bind P Q (ok a) f h k = k a h
Ensures-bind P Q (err e) f h k = tt

pub Ensures-ok {ℓ κ} :
    {A : Type ℓ} (P : A → Type κ) (r : Result A) (a : A) → Ensures P r → r ≡ ok a → P a
Ensures-ok P r a h e = subst (Ensures P) e h

pub Ensures-returns {ℓ κ} :
    {A : Type ℓ} (P : A → Type κ) (r : Result A) → ((a : A) → r ≡ ok a → P a) → Ensures P r
Ensures-returns P (ok a) h = h a refl
Ensures-returns P (err e) h = tt

pub Ensures-any {ℓ} : {A : Type ℓ} (r : Result A) → Ensures (λ a. Unit {0}) r
Ensures-any (ok a) = tt
Ensures-any (err e) = tt

pub bind-ext {ℓ} :
    {A : Type ℓ} {B : Type ℓ} (m : Result A) {f g : A → Result B}
    → ((a : A) → f a ≡ g a)
    → (m >>= f) ≡ (m >>= g)
bind-ext (ok a) h = h a
bind-ext (err e) h = refl

pub bind_assoc {ℓ} :
    {A : Type ℓ} {B : Type ℓ} {C : Type ℓ} (m : Result A) (f : A → Result B) (g : B → Result C)
    → ((m >>= f) >>= g) ≡ (m >>= λ a. f a >>= g)
bind_assoc (ok a) f g = refl
bind_assoc (err e) f g = refl

-- A call that returns after another one: that one returned.
pub bind-ok {ℓ κ} :
    {A : Type ℓ} {B : Type κ} (m : Result A) (f : A → Result B) (b : B)
    → (m >>= f) ≡ ok b
    → (a : A) × (m ≡ ok a) × (f a ≡ ok b)
bind-ok (ok a) f b e = (a, refl, e)
bind-ok (err x) f b e = cc

pub Result-cases {ℓ} :
    {A : Type ℓ} (r : Result A) → ((a : A) × (r ≡ ok a)) ⊎ ((e : Fault) × (r ≡ err e))
Result-cases (ok a) = inl (a, refl)
Result-cases (err e) = inr (e, refl)
