-- ===== src/Edge/HashTable.antt =====
-- `std::unordered_map<uint64_t, V>` as an association list, whose order stands for the unspecified
-- order of the table.
use crowdsensing.Common.{
  ℕ, ◌≡◌, refl, List, [], ◌∷◌, Option, none, some, arith, ◌==◌, if◌then◌else◌,
}

module _ {ℓ} {V : Type ℓ} where
  unfoldable pub find : ℕ → List (ℕ × V) → Option V
  find k [] = none
  find k ((j, v) ∷ m) = if j == k then some v else find k m

  -- A key that is there keeps its value.
  unfoldable pub emplace : ℕ → V → List (ℕ × V) → List (ℕ × V)
  unfolding find
  emplace k v m = elim (find k m) [ none ↦ (k, v) ∷ m | some w ↦ m ]

  unfoldable pub erase : ℕ → List (ℕ × V) → List (ℕ × V)
  erase k [] = []
  erase k ((j, v) ∷ m) = if j == k then erase k m else (j, v) ∷ erase k m

  -- A write through the pointer that the table holds for the key.
  unfoldable pub assign : ℕ → V → List (ℕ × V) → List (ℕ × V)
  assign k v [] = []
  assign k v ((j, w) ∷ m) = if j == k then (j, v) ∷ m else (j, w) ∷ assign k v m

  pub find-emplace :
      (k j : ℕ) (v : V) (m : List (ℕ × V))
      → find k m ≡ none
      → find j (emplace k v m) ≡ (if k == j then some v else find j m)
  unfolding find emplace
  find-emplace k j v m h = ground arith

  pub find-erase :
      (k j : ℕ) (m : List (ℕ × V)) → find j (erase k m) ≡ (if k == j then none else find j m)
  unfolding find erase
  find-erase k j [] = ground arith
  find-erase k j ((i, v) ∷ m) = ground (arith, find-erase k j m)

  pub find-assign :
      (k j : ℕ) (v w : V) (m : List (ℕ × V))
      → find k m ≡ some w
      → find j (assign k v m) ≡ (if k == j then some v else find j m)
  unfolding find assign
  find-assign k j v w [] h = cc
  find-assign k j v w ((i, u) ∷ m) h = ground (arith, find-assign k j v w m)

  -- No key twice.
  abbrev pub Distinct : List (ℕ × V) → Type ℓ
  Distinct [] = Unit
  Distinct ((k, v) ∷ m) = (find k m ≡ none) × Distinct m

  pub emplace-Distinct : (k : ℕ) (v : V) (m : List (ℕ × V)) → Distinct m → Distinct (emplace k v m)
  unfolding emplace
  emplace-Distinct k v m h = ground arith

  pub erase-Distinct : (k : ℕ) (m : List (ℕ × V)) → Distinct m → Distinct (erase k m)
  unfolding erase
  erase-Distinct k [] h = h
  erase-Distinct k ((j, v) ∷ m) h = ground (arith, erase-Distinct k m, find-erase k j m)

  -- A write adds no key.
  find-none-assign :
      (k j : ℕ) (v : V) (m : List (ℕ × V)) → find j m ≡ none → find j (assign k v m) ≡ none
  unfolding find assign
  find-none-assign k j v [] h = refl
  find-none-assign k j v ((i, w) ∷ m) h = ground (arith, find-none-assign k j v m)

  pub assign-Distinct : (k : ℕ) (v : V) (m : List (ℕ × V)) → Distinct m → Distinct (assign k v m)
  unfolding assign
  assign-Distinct k v [] h = h
  assign-Distinct k v ((j, w) ∷ m) h =
      ground (arith, assign-Distinct k v m, find-none-assign k j v m)

  -- A write is forgotten with its key.
  pub erase-assign : (k : ℕ) (v : V) (m : List (ℕ × V)) → erase k (assign k v m) ≡ erase k m
  unfolding erase assign
  erase-assign k v [] = refl
  erase-assign k v ((j, w) ∷ m) = ground (arith, erase-assign k v m)

  -- A key that is missing is erased without a change.
  pub erase-none : (k : ℕ) (m : List (ℕ × V)) → find k m ≡ none → erase k m ≡ m
  unfolding erase find
  erase-none k [] h = refl
  erase-none k ((j, w) ∷ m) h = ground (arith, erase-none k m)

  pub erase-emplace :
      (k : ℕ) (v : V) (m : List (ℕ × V)) → find k m ≡ none → erase k (emplace k v m) ≡ m
  unfolding erase emplace find
  erase-emplace k v m h = ground (arith, erase-none k m)
