-- ===== src/Edge/Producer/Armed.antt =====
-- The sessions whose timers were armed, and the table without them.
use crowdsensing.Common.{
  ℕ, suc, ◌≡◌, refl, ◌∙◌, Bool, true, false, List, [], ◌∷◌, ◌++◌, none, some, length, arith,
  Bool-cases, inl, inr, ◌==◌, if◌then◌else◌,
}
use crowdsensing.Edge.HashTable.{find, Distinct, find-erase, erase-none}
use crowdsensing.Edge.HashTable
use crowdsensing.Edge.Producer.State.{Action, put, express, arm, fetch}
use crowdsensing.Edge.Producer.Requests.{session_timer}

-- The sessions of the timers that were armed, in order.
abbrev pub armed : {N D : Type 0} → List (Action N D) → List ℕ
armed [] = []
armed (arm t ∷ xs) = t.handler_session ∷ armed xs
armed (x ∷ xs) = armed xs

abbrev pub has : ℕ → List ℕ → Bool
has k [] = false
has k (j ∷ ks) = if j == k then true else has k ks

pub has-armed_append :
    {N D : Type 0} (k : ℕ) (xs ys : List (Action N D))
    → has k (armed xs) ≡ true
    → has k (armed (xs ++ ys)) ≡ true
has-armed_append k [] ys h = cc
has-armed_append k (arm t ∷ xs) ys h = elim (Bool-cases (t.handler_session == k)) [
  | inl same ↦ rw same refl
  | inr other ↦ rw other (has-armed_append k xs ys (rw other at h))
]
has-armed_append k (put d ∷ xs) ys h = has-armed_append k xs ys h
has-armed_append k (express r ∷ xs) ys h = has-armed_append k xs ys h
has-armed_append k (fetch r e ∷ xs) ys h = has-armed_append k xs ys h

pub has-armed_last :
    {N D : Type 0} (k : ℕ) (xs : List (Action N D))
    → has k (armed (xs ++ arm (session_timer k) ∷ [])) ≡ true
has-armed_last k [] = ground arith
has-armed_last k (arm t ∷ xs) = elim (Bool-cases (t.handler_session == k)) [
  | inl same ↦ rw same refl
  | inr other ↦ rw other (has-armed_last k xs)
]
has-armed_last k (put d ∷ xs) = has-armed_last k xs
has-armed_last k (express r ∷ xs) = has-armed_last k xs
has-armed_last k (fetch r e ∷ xs) = has-armed_last k xs

module _ {ℓ} {V : Type ℓ} where
  abbrev pub erase_all : List ℕ → List (ℕ × V) → List (ℕ × V)
  erase_all [] m = m
  erase_all (k ∷ ks) m = erase_all ks (HashTable.erase k m)

  pub length-erase-Distinct :
      (k : ℕ) (v : V) (m : List (ℕ × V))
      → Distinct m
      → find k m ≡ some v
      → suc (length (HashTable.erase k m)) ≡ length m
  unfolding HashTable.erase find
  length-erase-Distinct k v [] h e = cc
  length-erase-Distinct k v ((j, w) ∷ m) h e =
      ground (arith, length-erase-Distinct k v m, erase-none k m)

  pub find-erase_all :
      (ks : List ℕ) (k : ℕ) (m : List (ℕ × V))
      → find k (erase_all ks m) ≡ (if has k ks then none else find k m)
  find-erase_all [] k m = refl
  find-erase_all (j ∷ ks) k m =
      find-erase_all ks k (HashTable.erase j m) ∙ ground (arith, find-erase j k m)

  pub no_key : (m : List (ℕ × V)) → ((k : ℕ) → find k m ≡ none) → m ≡ []
  unfolding find
  no_key [] h = refl
  no_key ((j, v) ∷ m) h = let e = h j in ground arith
