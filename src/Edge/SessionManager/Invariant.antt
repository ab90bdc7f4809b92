-- ===== src/Edge/SessionManager/Invariant.antt =====
-- Well-formedness of the session table.
use crowdsensing.Common.{ℕ, ◌≡◌, [], ◌∷◌, some, arith, Bytes, All, Option-cases, inl, inr}
use crowdsensing.Edge.HashTable.{
  find, emplace, assign, Distinct, emplace-Distinct, erase-Distinct, assign-Distinct,
}
use crowdsensing.Edge.HashTable
use crowdsensing.Edge.SessionManager.{Session, Manager, Timer, add, erase, append_payload}

module _ {Data : Type 0} where
  -- A session stands under its own id.
  abbrev pub UnderOwnId : ℕ × Session Data → Type 0
  UnderOwnId (k, s) = s.session_id ≡ k

  pub record IsWellFormed (m : Manager Data) : Type 0 where
    pub ids : All UnderOwnId m
    pub distinct : Distinct m

  erase-ids : (k : ℕ) (m : Manager Data) → All UnderOwnId m → All UnderOwnId (HashTable.erase k m)
  unfolding HashTable.erase
  erase-ids k [] h = tt
  erase-ids k ((j, s) ∷ m) h = ground (arith, erase-ids k m)

  assign-ids :
      (k : ℕ) (s : Session Data) (m : Manager Data)
      → s.session_id ≡ k
      → All UnderOwnId m
      → All UnderOwnId (assign k s m)
  unfolding assign
  assign-ids k s [] e h = tt
  assign-ids k s ((j, t) ∷ m) e h = ground (arith, assign-ids k s m)

  find-ids :
      (k : ℕ) (m : Manager Data) (s : Session Data)
      → All UnderOwnId m
      → find k m ≡ some s
      → s.session_id ≡ k
  unfolding find
  find-ids k [] s h e = cc
  find-ids k ((j, t) ∷ m) s h e = ground (arith, find-ids k m s)

  pub add-IsWellFormed :
      (k : ℕ) (d : Data) (t : Timer) (m : Manager Data)
      → IsWellFormed m
      → IsWellFormed (add k d t m)
  unfolding add emplace
  add-IsWellFormed k d t m v = ground arith

  pub erase-IsWellFormed : (k : ℕ) (m : Manager Data) → IsWellFormed m → IsWellFormed (erase k m)
  unfolding erase
  erase-IsWellFormed k m v = record {
    ids = erase-ids k m v.ids;
    distinct = erase-Distinct k m v.distinct;
  }

  pub append_payload-IsWellFormed :
      (k : ℕ) (value : Bytes) (m : Manager Data)
      → IsWellFormed m
      → IsWellFormed (append_payload k value m).1
  unfolding append_payload
  append_payload-IsWellFormed k value m v = elim (Option-cases (find k m)) [
    | inl e ↦ rw (e, append_payload) v
    | inr (s, e) ↦
        rw (e, append_payload)
          (record {
            ids = assign-ids k _ m (find-ids k m s v.ids e) v.ids;
            distinct = assign-Distinct k _ m v.distinct;
          })
  ]
