-- ===== src/Edge/Producer/Once.antt =====
-- An invariant of the producer: its sessions, their ids, and the packets it has put.
use crowdsensing.Common.{
  Ensures-any, ==_iff, u64_mod, sym, subst, ◌%◌, ℕ, ◌+◌, ◌≤◌, ◌<◌, ◌≡◌, List, [], ◌∷◌, ◌++◌, none,
  some, Bytes, Ensures, Ensures-bind, length, arith, Option-cases, Bool-cases, inl, inr, codes,
  ◌==◌,
}
use crowdsensing.Random.{random}
use crowdsensing.Libraries.{Libraries}
use crowdsensing.Edge.HashTable.{find, assign, find-emplace, find-erase, find-assign}
use crowdsensing.Edge.SessionManager
use crowdsensing.Edge.SessionManager.{Session, Manager, Timer, add, append_payload}
use crowdsensing.Edge.SessionManager.Invariant.{
  IsWellFormed, add-IsWellFormed, erase-IsWellFormed, append_payload-IsWellFormed,
}
use crowdsensing.Edge.Producer.State.{State, Action, put}
use crowdsensing.Edge.Producer.Replies.{adddata, cast, send_data, deliver, on_data}
use crowdsensing.Edge.Producer.Counts.{
  puts, puts-append, length-assign, length-erase_found, length-add,
}
use crowdsensing.Edge.Producer.Timer.{send_data_missing, send_data_open, sent}

module _ {lib : Libraries} where
  -- The id is one of those that the generator has given.
  abbrev pub Drawn : State lib → ℕ → Type 0
  Drawn s k = (n : ℕ) × (n < s.drawn) × (k ≡ random n)

  pub record IsOnce (s : State lib) : Type 0 where
    pub sessions_well : IsWellFormed s.sessions
    -- The packets put and the sessions open are no more than the queries taken.
    pub at_most_drawn : puts s.output + length s.sessions ≤ s.drawn
    pub ids_drawn : (k : ℕ) (x : Session lib.ndn.Data) → find k s.sessions ≡ some x → Drawn s k
    pub face_unset : s.ndn_face_ptr ≡ none

  sent-IsOnce :
      (sid : ℕ) (x : Session lib.ndn.Data) (s : State lib)
      → IsOnce s
      → find sid s.sessions ≡ some x
      → IsOnce (sent {lib = lib} sid x s)
  unfolding SessionManager.erase
  sent-IsOnce sid x s h e = record {
    sessions_well = erase-IsWellFormed sid s.sessions h.sessions_well;
    at_most_drawn = omega (
      arith,
      h.at_most_drawn,
      length-erase_found sid x s.sessions e,
      puts-append s.output (put (lib.ndn.set_content x.data_ptr x.buffer) ∷ []),
    );
    ids_drawn = λ k y f. h.ids_drawn k y (ground (arith, find-erase sid k s.sessions, f));
    face_unset = h.face_unset;
  }

  pub send_data-IsOnce :
      (error sid : ℕ) (s : State lib) → IsOnce s → Ensures IsOnce (send_data error sid s)
  send_data-IsOnce error sid s h = elim (Option-cases (find sid s.sessions)) [
    | inl e ↦ subst (Ensures IsOnce) (sym (send_data_missing error sid s e)) h
    | inr (x, e) ↦
        subst (Ensures IsOnce) (sym (send_data_open error sid s x e)) (sent-IsOnce sid x s h e)
  ]

  added-ids :
      (d : lib.ndn.Data) (t : Timer) (s : State lib)
      → IsOnce s
      → (k : ℕ) (y : Session lib.ndn.Data) → find k (add (random s.drawn) d t s.sessions) ≡ some y
      → (n : ℕ) × (n < s.drawn + 1) × (k ≡ random n)
  unfolding add
  added-ids d t s h k y f =
      let old : (x : Session lib.ndn.Data)
          → find k s.sessions ≡ some x
          → (n : ℕ) × (n < s.drawn + 1) × (k ≡ random n) =
        λ x g. let (n, below, e) = h.ids_drawn k x g in (n, omega arith, e) in
      elim (Option-cases (find (random s.drawn) s.sessions)) [
        | inl fresh ↦
            let f' = rw (fresh, add) at f in
            elim (Bool-cases (random s.drawn == k)) [
              | inl same_id ↦ (s.drawn, omega arith, sym ((==_iff (random s.drawn) k).0 same_id))
              | inr other ↦ old y (
                  ground (
                    arith,
                    other,
                    find-emplace (random s.drawn) k
                        (record {
                          session_id = random s.drawn;
                          data_ptr = d;
                          timer_ptr = t;
                          buffer = [];
                        })
                        s.sessions fresh,
                    f',
                  ))
            ]
        | inr (x, e) ↦ old y (rw (e, add) at f)
      ]

  -- The counters play no part.
  counted-IsOnce :
      (a i : ℕ) (s : State lib)
      → IsOnce s
      → IsOnce (record s { number_of_arrival_interest = a; issued_interest = i })
  counted-IsOnce a i s h = record {
    sessions_well = h.sessions_well;
    at_most_drawn = h.at_most_drawn;
    ids_drawn = h.ids_drawn;
    face_unset = h.face_unset;
  }

  assigned-ids :
      (sid : ℕ) (v x : Session lib.ndn.Data) (s : State lib)
      → IsOnce s
      → find sid s.sessions ≡ some x
      → (k : ℕ) (y : Session lib.ndn.Data) → find k (assign sid v s.sessions) ≡ some y
      → Drawn s k
  assigned-ids sid v x s h e k y f = elim (Bool-cases (sid == k)) [
    | inl same_id ↦ subst (Drawn s) ((==_iff sid k).0 same_id) (h.ids_drawn sid x e)
    | inr other ↦ h.ids_drawn k y (ground (arith, other, find-assign sid k v x s.sessions e, f))
  ]

  kept-IsOnce :
      (sid : ℕ) (value : Bytes) (s : State lib)
      → IsOnce s
      → IsOnce (record s { sessions = (append_payload sid value s.sessions).1 })
  unfolding append_payload
  kept-IsOnce sid value s h =
      let w = append_payload-IsWellFormed sid value s.sessions h.sessions_well in
      elim (Option-cases (find sid s.sessions)) [
        | inl e ↦
            rw (e, append_payload)
              (counted-IsOnce s.number_of_arrival_interest s.issued_interest s h)
        | inr (x, e) ↦
            rw (e, append_payload)
              (record {
                sessions_well = rw (e, append_payload) at w;
                at_most_drawn = omega (
                  arith,
                  h.at_most_drawn,
                  length-assign sid (record x { buffer = (x.buffer ++ value) ++ b'\n' ∷ [] })
                      s.sessions,
                );
                ids_drawn = assigned-ids sid _ x s h e;
                face_unset = h.face_unset;
              })
      ]

  pub deliver-IsOnce :
      (sid : ℕ) (value : Bytes) (s : State lib) → IsOnce s → Ensures IsOnce (deliver sid value s)
  unfolding deliver
  deliver-IsOnce sid value s h =
      let a = (s.number_of_arrival_interest + 1) % u64_mod in
      let kept : State lib = record s {
        sessions = (append_payload sid value s.sessions).1;
        number_of_arrival_interest = a;
      } in
      let w : IsOnce kept = counted-IsOnce a s.issued_interest _ (kept-IsOnce sid value s h) in
      elim (Bool-cases (a == s.issued_interest)) [
        | inl last ↦
            rw (last, deliver)
              (Ensures-bind IsOnce IsOnce (send_data {lib = lib} 0 sid kept) _
                (send_data-IsOnce 0 sid kept w) (λ t v. counted-IsOnce 0 0 t v))
        | inr more ↦ rw (more, deliver) w
      ]

  pub on_data-IsOnce : (value : Bytes) (s : State lib) → IsOnce s → Ensures IsOnce (on_data value s)
  unfolding on_data
  on_data-IsOnce value s h =
      let obj = lib.json.member (lib.json.parse value) (codes "session_id") in
      elim (Bool-cases (lib.json.is_null obj)) [
        | inl missing ↦ rw (missing, on_data) h
        | inr present ↦
            rw (present, on_data)
              (Ensures-bind (λ n. Unit {0}) IsOnce
                (cast (lib.boost.lexical_cast (lib.json.string_value obj))) _
                (Ensures-any (cast (lib.boost.lexical_cast (lib.json.string_value obj))))
                (λ sid u. deliver-IsOnce sid value s h))
      ]

  pub opened-IsOnce :
      (i : ℕ) (targets : List Bytes) (d : lib.ndn.Data) (t : Timer)
      (actions : List (Action lib.ndn.Name lib.ndn.Data)) (s : State lib)
      → IsOnce s
      → puts actions ≡ 0
      → IsOnce (record s {
        number_of_arrival_interest = 0;
        issued_interest = i;
        drawn = s.drawn + 1;
        target_name = targets;
        sessions = add (random s.drawn) d t s.sessions;
        output = s.output ++ actions;
      })
  opened-IsOnce i targets d t actions s h none_put = record {
    sessions_well = add-IsWellFormed (random s.drawn) d t s.sessions h.sessions_well;
    at_most_drawn = omega (
      arith,
      h.at_most_drawn,
      none_put,
      puts-append s.output actions,
      length-add (random s.drawn) d t s.sessions,
    );
    ids_drawn = added-ids d t s h;
    face_unset = h.face_unset;
  }

  pub adddata-IsOnce : (value : Bytes) (s : State lib) → IsOnce s → Ensures IsOnce (adddata value s)
  unfolding adddata on_data
  adddata-IsOnce value s h = on_data-IsOnce value s h
