-- ===== src/Edge/SessionManager/Refinement.antt =====
-- The table of sessions against a partial map from ids to a packet and the bytes collected.
use crowdsensing.Common.{
  ℕ, ◌≡◌, refl, List, [], ◌∷◌, ◌++◌, Option, none, some, arith, Bytes, Option-cases, inl, inr, ◌==◌,
  if◌then◌else◌,
}
use mathlib.Core.Path.{fun_ext}
use crowdsensing.Edge.HashTable.{find, find-emplace, find-erase, find-assign}
use crowdsensing.Edge.SessionManager.{Session, Manager, Timer, add, erase, append_payload}

-- The calls that change the table.
pub data Call (Data : Type 0) : Type 0 where
  adds : ℕ → Data → Timer → Call Data
  appends : ℕ → Bytes → Call Data
  erases : ℕ → Call Data

-- What a client of the table sees.
abbrev pub View : Type 0 → Type 0
View Data = ℕ → Option (Data × Bytes)

module _ {Data : Type 0} where
  abbrev pub seen : Option (Session Data) → Option (Data × Bytes)
  seen none = none
  seen (some s) = some (s.data_ptr, s.buffer)

  abbrev pub view : Manager Data → View Data
  view m k = seen (find k m)

  unfoldable pub step : Manager Data → Call Data → Manager Data
  step m (adds k d t) = add k d t m
  step m (appends k v) = (append_payload k v m).1
  step m (erases k) = erase k m

  unfoldable pub run : Manager Data → List (Call Data) → Manager Data
  unfolding step
  run m [] = m
  run m (c ∷ cs) = run (step m c) cs

  abbrev pub opened : Data → Option (Data × Bytes) → Option (Data × Bytes)
  opened d none = some (d, [])
  opened d (some x) = some x

  abbrev pub extended : Bytes → Option (Data × Bytes) → Option (Data × Bytes)
  extended v none = none
  extended v (some (d, b)) = some (d, (b ++ v) ++ b'\n' ∷ [])

  -- The same calls on the partial map.
  abbrev pub spec_step : View Data → Call Data → View Data
  spec_step f (adds k d t) j = if k == j then opened d (f j) else f j
  spec_step f (appends k v) j = if k == j then extended v (f j) else f j
  spec_step f (erases k) j = if k == j then none else f j

  abbrev pub spec_run : View Data → List (Call Data) → View Data
  spec_run f [] = f
  spec_run f (c ∷ cs) = spec_run (spec_step f c) cs

  add-refines :
      (m : Manager Data) (k : ℕ) (d : Data) (t : Timer) (j : ℕ)
      → view (add k d t m) j ≡ spec_step (view m) (adds k d t) j
  unfolding add
  add-refines m k d t j = elim (Option-cases (find k m)) [
    | inl e ↦
        rw (e, add)
          (ground (
            arith,
            find-emplace k j (record { session_id = k; data_ptr = d; timer_ptr = t; buffer = [] })
                m,
          ))
    | inr (s, e) ↦ rw (e, add) (ground arith)
  ]

  append_payload-refines :
      (m : Manager Data) (k : ℕ) (v : Bytes) (j : ℕ)
      → view (append_payload k v m).1 j ≡ spec_step (view m) (appends k v) j
  unfolding append_payload
  append_payload-refines m k v j = elim (Option-cases (find k m)) [
    | inl e ↦ rw (e, append_payload) (ground arith)
    | inr (s, e) ↦
        rw (e, append_payload)
          (ground
            (arith, find-assign k j (record s { buffer = (s.buffer ++ v) ++ b'\n' ∷ [] }) s m))
  ]

  pub step-refines : (m : Manager Data) (c : Call Data) → view (step m c) ≡ spec_step (view m) c
  unfolding step erase
  step-refines m (adds k d t) = fun_ext (add-refines m k d t)
  step-refines m (appends k v) = fun_ext (append_payload-refines m k v)
  step-refines m (erases k) = fun_ext (λ j. ground (arith, find-erase k j m))

  -- After any calls, the table shows what the same calls make of the partial map.
  pub view-run : (m : Manager Data) (cs : List (Call Data)) → view (run m cs) ≡ spec_run (view m) cs
  unfolding run
  view-run m [] = refl
  view-run m (c ∷ cs) = rw (view-run (step m c) cs, step-refines m c)
