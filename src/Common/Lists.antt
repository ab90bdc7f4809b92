-- ===== src/Common/Lists.antt =====
-- Lists measured by native numbers, under the library's names, and predicates on all elements.
use Prim.Native.Nat.{ℕ, zero, suc, ◌+◌, ◌-◌, ◌≤◌, ◌<◌, min}
use mathlib.Core.Path.{◌≡◌, refl, sym, ◌∙◌, ap, subst}
use mathlib.Core.Logic.{◌≢◌}
use mathlib.Core.List.{List, [], ◌∷◌, ◌++◌, map, Perm, length as core_length}
use mathlib.Core.List.Perm
use mathlib.Core.Nat.{ℕ as core_ℕ, zero as core_zero, suc as core_suc}
use mathlib.Core.Option.{Option, none, some}
use native.Mathlib.Omega.{arith}

module _ {ℓ} {A : Type ℓ} where
  abbrev pub length : List A → ℕ
  length [] = 0
  length (x ∷ xs) = suc (length xs)

  abbrev pub get_elem? : List A → ℕ → Option A
  get_elem? [] i = none
  get_elem? (x ∷ xs) zero = some x
  get_elem? (x ∷ xs) (suc i) = get_elem? xs i

  -- A write out of bounds changes nothing.
  abbrev pub set : List A → ℕ → A → List A
  set [] i v = []
  set (x ∷ xs) zero v = v ∷ xs
  set (x ∷ xs) (suc i) v = x ∷ set xs i v

  abbrev pub take : ℕ → List A → List A
  take zero xs = []
  take (suc n) [] = []
  take (suc n) (x ∷ xs) = x ∷ take n xs

  abbrev pub drop : ℕ → List A → List A
  drop zero xs = xs
  drop (suc n) [] = []
  drop (suc n) (x ∷ xs) = drop n xs

  pub length-append : (xs ys : List A) → length (xs ++ ys) ≡ length xs + length ys
  length-append [] ys = omega arith
  length-append (x ∷ xs) ys = omega (arith, length-append xs ys)

  pub drop-nil : (n : ℕ) → drop n [] ≡ []
  drop-nil zero = refl
  drop-nil (suc n) = refl

  pub take-append-drop : (n : ℕ) (xs : List A) → take n xs ++ drop n xs ≡ xs
  take-append-drop zero xs = refl
  take-append-drop (suc n) [] = refl
  take-append-drop (suc n) (x ∷ xs) = ap (◌∷◌ x) (take-append-drop n xs)

  pub drop-drop : (m n : ℕ) (xs : List A) → drop m (drop n xs) ≡ drop (n + m) xs
  drop-drop m zero xs = ap (λ k. drop k xs) (omega arith)
  drop-drop m (suc n) [] = drop-nil m ∙ sym (drop-nil (suc n + m))
  drop-drop m (suc n) (x ∷ xs) =
      drop-drop m n xs ∙ ap (λ k. drop k (x ∷ xs)) {x = suc (n + m)} (omega arith)

  pub drop_all : (n : ℕ) (xs : List A) → length xs ≤ n → drop n xs ≡ []
  drop_all zero [] h = refl
  drop_all zero (x ∷ xs) h = absurd (omega arith)
  drop_all (suc n) [] h = refl
  drop_all (suc n) (x ∷ xs) h = drop_all n xs (omega arith)

  pub take_all : (xs : List A) → take (length xs) xs ≡ xs
  take_all [] = refl
  take_all (x ∷ xs) = ap (◌∷◌ x) (take_all xs)

  pub length-set : (xs : List A) (i : ℕ) (v : A) → length (set xs i v) ≡ length xs
  length-set [] i v = refl
  length-set (x ∷ xs) zero v = refl
  length-set (x ∷ xs) (suc i) v = ap suc (length-set xs i v)

  pub length-take : (n : ℕ) (xs : List A) → length (take n xs) ≡ min n (length xs)
  length-take zero xs = omega arith
  length-take (suc n) [] = omega arith
  length-take (suc n) (x ∷ xs) = omega (arith, length-take n xs)

  pub length-drop : (n : ℕ) (xs : List A) → length (drop n xs) ≡ length xs - n
  length-drop zero xs = omega arith
  length-drop (suc n) [] = omega arith
  length-drop (suc n) (x ∷ xs) = omega (arith, length-drop n xs)

pub length-map {ℓ κ} :
    {A : Type ℓ} {B : Type κ} (f : A → B) (xs : List A) → length (map f xs) ≡ length xs
length-map f [] = refl
length-map f (x ∷ xs) = ap suc (length-map f xs)

pub get_elem?-lt {ℓ} :
    {A : Type ℓ} (xs : List A) (k : ℕ) (a : A) → get_elem? xs k ≡ some a → k < length xs
get_elem?-lt [] k a e = cc
get_elem?-lt (x ∷ xs) zero a e = omega arith
get_elem?-lt (x ∷ xs) (suc k) a e = omega (arith, get_elem?-lt xs k a e)

pub get_elem?-some {ℓ} :
    {A : Type ℓ} (xs : List A) (k : ℕ) → k < length xs → (a : A) × (get_elem? xs k ≡ some a)
get_elem?-some [] k h = absurd (omega arith)
get_elem?-some (x ∷ xs) zero h = (x, refl)
get_elem?-some (x ∷ xs) (suc k) h = get_elem?-some xs k (omega arith)

pub get_elem?-map {ℓ κ} :
    {A : Type ℓ} {B : Type κ} (f : A → B) (xs : List A) (k : ℕ) (a : A)
    → get_elem? xs k ≡ some a
    → get_elem? (map f xs) k ≡ some (f a)
get_elem?-map f [] k a e = cc
get_elem?-map f (x ∷ xs) zero a e = ground arith
get_elem?-map f (x ∷ xs) (suc k) a e = get_elem?-map f xs k a e

module _ {ℓ κ} {A : Type ℓ} (P : A → Type κ) where
  abbrev pub All : List A → Type κ
  All [] = Unit
  All (x ∷ xs) = P x × All xs

  pub All-append : (xs ys : List A) → All xs → All ys → All (xs ++ ys)
  All-append [] ys hx hy = hy
  All-append (x ∷ xs) ys (px, hx) hy = (px, All-append xs ys hx hy)

pub All-map {ℓ κ μ} :
    {A : Type ℓ} (P : A → Type κ) (Q : A → Type μ)
    → ((a : A) → P a → Q a)
    → (xs : List A) → All P xs
    → All Q xs
All-map P Q f [] h = tt
All-map P Q f (x ∷ xs) (px, hx) = (f x px, All-map P Q f xs hx)

pub All-get_elem? {ℓ κ} :
    {A : Type ℓ} (P : A → Type κ) (xs : List A) (i : ℕ) (x : A)
    → All P xs
    → get_elem? xs i ≡ some x
    → P x
All-get_elem? P [] i x h e = cc
All-get_elem? P (y ∷ ys) zero x (py, h) e = subst P (cc) py
All-get_elem? P (y ∷ ys) (suc i) x (py, h) e = All-get_elem? P ys i x h e

-- No byte of the text is `b`.
abbrev pub Lacks : ℕ → List ℕ → Type 0
Lacks b = All (λ c. c ≢ b)

abbrev of_core : core_ℕ → ℕ
of_core core_zero = 0
of_core (core_suc n) = suc (of_core n)

-- The library's lengths, on its own numbers, against these.
length_lem {ℓ} : {A : Type ℓ} (xs : List A) → length xs ≡ of_core (core_length xs)
length_lem [] = refl
length_lem (x ∷ xs) = ap suc (length_lem xs)

pub length-Perm {ℓ} : {A : Type ℓ} {xs ys : List A} → Perm xs ys → length xs ≡ length ys
length-Perm {xs} {ys} p = length_lem xs ∙ ap of_core (Perm.length-eq p) ∙ sym (length_lem ys)

pub length-pos {ℓ} : {A : Type ℓ} (xs : List A) → xs ≢ [] → 0 < length xs
length-pos [] h = absurd (h refl)
length-pos (x ∷ xs) h = omega arith
