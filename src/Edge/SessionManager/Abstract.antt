-- ===== src/Edge/SessionManager/Abstract.antt =====
-- The table of sessions up to the order of its entries: the hash table leaves that order unspecified,
-- and two tables that have the same session, with all its members, under each id are the same here.
use mathlib.Core.Path.{fun_ext}
use mathlib.Core.Quot
use mathlib.Core.Quot.{Quot, Quot-set}
use crowdsensing.Common.{
  inr, inl, Option-cases, some, ℕ, ◌≡◌, ◌≢◌, refl, sym, ap, ◌∙◌, List, [], ◌∷◌, ◌++◌, Option, none,
  Bytes, All, arith, ◌==◌, if◌then◌else◌,
}
use crowdsensing.Edge.HashTable.{find, find-emplace, find-erase, find-assign}
use crowdsensing.Edge.SessionManager
use crowdsensing.Edge.SessionManager.{Session, Manager, Timer, add, append_payload}
use crowdsensing.Edge.SessionManager.Refinement.{Call, adds, appends, erases, step, run}

module _ {Data : Type 0} where
  -- What the table holds under each id.
  abbrev pub entries : Manager Data → ℕ → Option (Session Data)
  entries m k = find k m

  abbrev pub SameEntries : Manager Data → Manager Data → Type 0
  SameEntries m n = entries m ≡ entries n

-- The abstract table.
abbrev pub Table : Type 0 → Type 0
Table Data = Quot (SameEntries {Data = Data})

module _ {Data : Type 0} where
  -- The session that a call is about.
  abbrev pub key : Call Data → ℕ
  key (adds k d t) = k
  key (appends k v) = k
  key (erases k) = k

  -- What a call does to its session.
  abbrev change : Call Data → Option (Session Data) → Option (Session Data)
  change (adds k d t) none =
      some (record { session_id = k; data_ptr = d; timer_ptr = t; buffer = [] })
  change (adds k d t) (some x) = some x
  change (appends k v) none = none
  change (appends k v) (some x) = some (record x { buffer = (x.buffer ++ v) ++ b'\n' ∷ [] })
  change (erases k) x = none

  abbrev changed : (ℕ → Option (Session Data)) → Call Data → ℕ → Option (Session Data)
  changed f c j = if key c == j then change c (f j) else f j

  find-append_payload :
      (m : Manager Data) (k : ℕ) (v : Bytes) (j : ℕ)
      → find j (append_payload k v m).1 ≡ changed (entries m) (appends k v) j
  unfolding append_payload
  find-append_payload m k v j = elim (Option-cases (find k m)) [
    | inl e ↦ rw (e, append_payload) (ground arith)
    | inr (x, e) ↦
        rw (e, append_payload)
          (ground
            (arith, find-assign k j (record x { buffer = (x.buffer ++ v) ++ b'\n' ∷ [] }) x m))
  ]

  find-step :
      (m : Manager Data) (c : Call Data) (j : ℕ) → find j (step m c) ≡ changed (entries m) c j
  unfolding step add SessionManager.erase
  find-step m (adds k d t) j = elim (Option-cases (find k m)) [
    | inl e ↦
        rw (e, add)
          (ground (
            arith,
            find-emplace k j (record { session_id = k; data_ptr = d; timer_ptr = t; buffer = [] })
                m,
          ))
    | inr (x, e) ↦ rw (e, add) (ground arith)
  ]
  find-step m (appends k v) j = find-append_payload m k v j
  find-step m (erases k) j = ground (arith, find-erase k j m)

  step-entries : (m : Manager Data) (c : Call Data) → entries (step m c) ≡ changed (entries m) c
  step-entries m c = fun_ext (find-step m c)

  changed_comm :
      (f : ℕ → Option (Session Data)) (c d : Call Data)
      → key c ≢ key d
      → changed (changed f c) d ≡ changed (changed f d) c
  changed_comm f c d apart = fun_ext (λ j. ground (arith, apart))

  step-SameEntries :
      (c : Call Data) (m n : Manager Data) → SameEntries m n → SameEntries (step m c) (step n c)
  step-SameEntries c m n h = step-entries m c ∙ ap (λ f. changed f c) h ∙ sym (step-entries n c)

  -- A call on the abstract table, and calls one after the other.
  pub act : Call Data → Table Data → Table Data
  act c =
      Quot.lift Quot-set (λ m. Quot.mk (step m c)) (λ m n h. Quot.sound (step-SameEntries c m n h))

  pub acts : List (Call Data) → Table Data → Table Data
  acts [] t = t
  acts (c ∷ cs) t = acts cs (act c t)

  act_comm :
      (c d : Call Data) → key c ≢ key d → (t : Table Data) → act d (act c t) ≡ act c (act d t)
  unfolding act
  act_comm c d apart =
      Quot.ind (λ t. Quot-set _ _)
        (λ m. Quot.sound (
          step-entries (step m c) d
          ∙ ap (λ f. changed f d) (step-entries m c)
          ∙ changed_comm (entries m) c d apart
          ∙ ap (λ f. changed f c) (sym (step-entries m d))
          ∙ sym (step-entries (step m d) c)))

  -- The calls of two threads in the order in which they get the lock.
  pub data Merge : List (Call Data) → List (Call Data) → List (Call Data) → Type 0 where
    no_call : Merge [] [] []
    first_calls :
        (c : Call Data) {cs ds es : List (Call Data)} → Merge cs ds es → Merge (c ∷ cs) ds (c ∷ es)
    second_calls :
        (d : Call Data) {cs ds es : List (Call Data)} → Merge cs ds es → Merge cs (d ∷ ds) (d ∷ es)

  -- The threads use different sessions.
  abbrev pub Apart : List (Call Data) → List (Call Data) → Type 0
  Apart cs ds = All (λ c. All (λ d. key c ≢ key d) ds) cs

  acts-append :
      (cs ds : List (Call Data)) (t : Table Data) → acts (cs ++ ds) t ≡ acts ds (acts cs t)
  unfolding acts
  acts-append [] ds t = refl
  acts-append (c ∷ cs) ds t = acts-append cs ds (act c t)

  acts-act :
      (d : Call Data) (cs : List (Call Data)) (t : Table Data)
      → All (λ c. key c ≢ key d) cs
      → acts cs (act d t) ≡ act d (acts cs t)
  unfolding acts
  acts-act d [] t h = refl
  acts-act d (c ∷ cs) t (ne, h) = ap (acts cs) (sym (act_comm c d ne t)) ∙ acts-act d cs (act c t) h

  All-tail :
      (d : Call Data) (ds cs : List (Call Data))
      → Apart cs (d ∷ ds)
      → All (λ c. key c ≢ key d) cs × Apart cs ds
  All-tail d ds [] h = (tt, tt)
  All-tail d ds (c ∷ cs) ((ne, this), h) =
      let (nes, later) = All-tail d ds cs h in ((ne, nes), (this, later))

  -- Whatever the order in which two threads get the lock for their calls, if they use different
  -- sessions, the table is in the end, up to the order of its entries, what the calls of the first
  -- thread and then those of the second make of it.
  pub acts-Merge :
      {cs ds es : List (Call Data)}
      → Merge cs ds es
      → Apart cs ds
      → (t : Table Data) → acts es t ≡ acts (cs ++ ds) t
  unfolding acts
  acts-Merge no_call apart t = refl
  acts-Merge (first_calls c m) (this, apart) t = acts-Merge m apart (act c t)
  acts-Merge (second_calls d {cs} {ds} {es} m) apart t =
      let (nes, later) = All-tail d ds cs apart in
      acts-Merge m later (act d t)
      ∙ acts-append cs ds (act d t)
      ∙ ap (acts ds) (acts-act d cs t nes)
      ∙ sym (acts-append cs (d ∷ ds) t)

  module _ (data_set : IsSet Data) where
    Entries-set : IsSet (ℕ → Option (Session Data))
    Entries-set = hlevel

    -- The session that the abstract table has under an id.
    pub look : Table Data → ℕ → Option (Session Data)
    look = Quot.lift Entries-set entries (λ m n h. h)

    acts-run :
        (cs : List (Call Data)) (m : Manager Data)
        → ◌≡◌ {A = Table Data} (acts cs (Quot.mk m)) (Quot.mk (run m cs))
    unfolding acts act run
    acts-run [] m = refl
    acts-run (c ∷ cs) m = acts-run cs (step m c)

    -- Whatever the order in which two threads get the lock for their calls, if they use different
    -- sessions, the calls leave under every id the same session, with all its members, as those of
    -- the first thread and then those of the second.
    pub run-Merge :
        {cs ds es : List (Call Data)}
        → Merge cs ds es
        → Apart cs ds
        → (m : Manager Data) (k : ℕ) → find k (run m es) ≡ find k (run m (cs ++ ds))
    unfolding look
    run-Merge {cs} {ds} {es} merge apart m k =
        ap (λ t. look t k)
          (sym (acts-run es m) ∙ acts-Merge merge apart (Quot.mk m) ∙ acts-run (cs ++ ds) m)
