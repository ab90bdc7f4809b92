-- ===== src/Edge/SessionManager/Every.antt =====
-- A statement on every open session, under the methods that change the table.
use crowdsensing.Common.{
  ℕ, ◌≡◌, subst, [], some, Option-cases, Bool-cases, inl, inr, arith, ◌==◌, ==_iff, if◌then◌else◌,
}
use crowdsensing.Edge.HashTable.{find, assign, find-emplace, find-erase, find-assign}
use crowdsensing.Edge.SessionManager
use crowdsensing.Edge.SessionManager.{Session, Manager, Timer, add}

module _ {Data : Type 0} (Q : ℕ → Session Data → Type 0) where
  abbrev pub Every : Manager Data → Type 0
  Every m = (k : ℕ) (x : Session Data) → find k m ≡ some x → Q k x

  -- What a lookup finds after a write under `sid`.
  found_of :
      (sid : ℕ) (v : Session Data) (m : Manager Data)
      → Q sid v
      → Every m
      → (k : ℕ) (x : Session Data) → (if sid == k then some v else find k m) ≡ some x
      → Q k x
  found_of sid v m new old k x f = elim (Bool-cases (sid == k)) [
    | inl same_id ↦
        let same : v ≡ x = ground (arith, same_id, f) in
        subst (λ j. Q j x) ((==_iff sid k).0 same_id) (subst (Q sid) same new)
    | inr other ↦ old k x (ground (arith, other, f))
  ]

  pub empty-Every : Every []
  unfolding find
  empty-Every k x f = cc

  pub add-Every :
      (sid : ℕ) (d : Data) (t : Timer) (m : Manager Data)
      → Q sid (record { session_id = sid; data_ptr = d; timer_ptr = t; buffer = [] })
      → Every m
      → Every (add sid d t m)
  unfolding add
  add-Every sid d t m new old k x f = elim (Option-cases (find sid m)) [
    | inl fresh ↦
        let f' = rw (fresh, add, find-emplace sid k _ m fresh) at f in
        found_of sid _ m new old k x f'
    | inr (y, e) ↦ old k x (rw (e, add) at f)
  ]

  pub assign-Every :
      (sid : ℕ) (v x : Session Data) (m : Manager Data)
      → find sid m ≡ some x
      → Q sid v
      → Every m
      → Every (assign sid v m)
  assign-Every sid v x m e new old k y f =
      found_of sid v m new old k y (rw (find-assign sid k v x m e) at f)

  pub erase-Every : (sid : ℕ) (m : Manager Data) → Every m → Every (SessionManager.erase sid m)
  unfolding SessionManager.erase
  erase-Every sid m old k y f = old k y (ground (arith, find-erase sid k m, f))
