-- ===== src/Edge/Producer/Drain.antt =====
-- The timers: once all that were armed have expired, no session is left.
use crowdsensing.Common.{
  ℕ, ◌+◌, ◌≡◌, refl, sym, ap, ◌∙◌, subst, true, List, [], ◌∷◌, ◌++◌, none, some, Result, ok, length,
  arith, Option-cases, Bool-cases, inl, inr, ◌==◌, ◌>>=◌, append_assoc, append-nil, ==_iff,
}
use crowdsensing.Libraries.{Libraries}
use crowdsensing.Edge.HashTable.{find, Distinct, find-erase, erase-none, erase-Distinct}
use crowdsensing.Edge.SessionManager
use crowdsensing.Edge.SessionManager.{Session, Manager}
use crowdsensing.Edge.SessionManager.Every.{
  Every, empty-Every, add-Every, assign-Every, erase-Every,
}
use crowdsensing.Edge.Producer.Armed.{
  armed, has, has-armed_append, has-armed_last, erase_all, length-erase-Distinct, find-erase_all,
  no_key,
}
use crowdsensing.Edge.Producer.State.{State, Action, put, arm}
use crowdsensing.Edge.Producer.Replies.{send_data}
use crowdsensing.Edge.Producer.Requests.{session_timer}
use crowdsensing.Edge.Producer.Counts.{puts, puts-append}
use crowdsensing.Edge.Producer.Timer.{send_data_missing, send_data_open, sent}
use crowdsensing.Edge.Producer.Reach.{Reachable, Reachable-answered_once}
use crowdsensing.Edge.Producer.Rule.{IsKept, Reachable-Holds}

module _ (lib : Libraries) where
  -- The packet that answers a session was put, with all that the session had collected.
  abbrev pub IsAnswered : List (Action lib.ndn.Name lib.ndn.Data) → Session lib.ndn.Data → Type 0
  IsAnswered out x =
      (before after : List (Action lib.ndn.Name lib.ndn.Data)) × (out
        ≡ before ++ put (lib.ndn.set_content x.data_ptr x.buffer) ∷ after)

  IsAnswered-append :
      (out new : List (Action lib.ndn.Name lib.ndn.Data)) (x : Session lib.ndn.Data)
      → IsAnswered out x
      → IsAnswered (out ++ new) x
  IsAnswered-append out new x (before, after, e) =
      (before, after ++ new, ap (λ o. o ++ new) e ∙ append_assoc before _ new)

module _ {lib : Libraries} where
  -- The timers of some sessions expire, one behind the other, with whatever error code.
  unfoldable pub expire : ℕ → List ℕ → State lib → Result (State lib)
  expire error [] s = ok s
  expire error (k ∷ ks) s = send_data error k s >>= expire error ks

  -- What the expiries do.
  record Expired (error : ℕ) (ks : List ℕ) (s : State lib) : Type 0 where
    pub end : State lib
    pub returned : expire error ks s ≡ ok end
    pub left : end.sessions ≡ erase_all ks s.sessions
    pub count : puts end.output + length end.sessions ≡ puts s.output + length s.sessions
    pub new : List (Action lib.ndn.Name lib.ndn.Data)
    pub appended : end.output ≡ s.output ++ new
    pub answered :
        (k : ℕ) (x : Session lib.ndn.Data)
        → has k ks ≡ true
        → find k s.sessions ≡ some x
        → IsAnswered lib end.output x

  -- A session that is open is not one that was missing.
  later_has :
      (j k : ℕ) (ks : List ℕ) (s : State lib) (x : Session lib.ndn.Data)
      → find k s.sessions ≡ none
      → find j s.sessions ≡ some x
      → has j (k ∷ ks) ≡ true
      → has j ks ≡ true
  later_has j k ks s x missing f e = elim (Bool-cases (k == j)) [
    | inl same_id ↦
        let e' = subst (λ n. find n s.sessions ≡ none) ((==_iff k j).0 same_id) missing in
        let absurdity : none ≡ some x = sym e' ∙ f in cc
    | inr other ↦ rw other at e
  ]

  expire-Expired :
      (error : ℕ) (ks : List ℕ) (s : State lib) → Distinct s.sessions → Expired error ks s
  unfolding expire SessionManager.erase
  expire-Expired error [] s h = record {
    end = s;
    returned = refl;
    left = refl;
    count = refl;
    new = [];
    appended = sym (append-nil s.output);
    answered = λ k x e f. cc;
  }
  expire-Expired error (k ∷ ks) s h = elim (Option-cases (find k s.sessions)) [
    | inl missing ↦
        let r = expire-Expired error ks s h in
        record {
          end = r.end;
          returned = rw (send_data_missing error k s missing) r.returned;
          left = r.left ∙ ap (erase_all ks) (sym (erase-none k s.sessions missing));
          count = r.count;
          new = r.new;
          appended = r.appended;
          answered = λ j x e f. r.answered j x (later_has j k ks s x missing f e) f;
        }
    | inr (y, open_session) ↦
        let r = expire-Expired error ks (sent {lib = lib} k y s) (erase-Distinct k s.sessions h) in
        record {
          end = r.end;
          returned = rw (send_data_open error k s y open_session) r.returned;
          left = r.left;
          count = omega (
            arith,
            r.count,
            puts-append s.output (put (lib.ndn.set_content y.data_ptr y.buffer) ∷ []),
            length-erase-Distinct k y s.sessions h open_session,
          );
          new = put (lib.ndn.set_content y.data_ptr y.buffer) ∷ r.new;
          appended = r.appended ∙ append_assoc s.output _ r.new;
          answered = λ j x e f. elim (Bool-cases (k == j)) [
            | inl same_id ↦
                let same : y ≡ x = ground (arith, (==_iff k j).0 same_id, open_session, f) in
                subst (IsAnswered lib r.end.output) same
                  (s.output, r.new, r.appended ∙ append_assoc s.output _ r.new)
            | inr other ↦
                r.answered j x (rw other at e) (ground (arith, find-erase k j s.sessions, other, f))
          ];
        }
  ]

module _ (lib : Libraries) where
  abbrev Armed : Manager lib.ndn.Data → List (Action lib.ndn.Name lib.ndn.Data) → Type 0
  Armed m out = Every (λ k x. has k (armed out) ≡ true) m

  Armed-append :
      (m : Manager lib.ndn.Data) (out new : List (Action lib.ndn.Name lib.ndn.Data))
      → Armed m out
      → Armed m (out ++ new)
  Armed-append m out new h k x e = has-armed_append k out new (h k x e)

  kept : IsKept lib Armed
  kept = record {
    at_start = empty-Every (λ k x. has k [] ≡ true);
    opened = λ sid now interest m out h.
        add-Every (λ k x. has k (armed (out ++ arm (session_timer sid) ∷ [])) ≡ true) sid _ _ m
          (has-armed_last sid out) (Armed-append m out _ h);
    expressed = λ r m out h. Armed-append m out _ h;
    fetched = λ r e m out h. Armed-append m out _ h;
    appended = λ sid x bytes m out e h.
        assign-Every (λ k x. has k (armed out) ≡ true) sid _ x m e (h sid x e) h;
    sent = λ sid x m out e h.
        erase-Every
          (λ k y. has k (armed (out ++ put (lib.ndn.set_content x.data_ptr x.buffer) ∷ [])) ≡ true)
          sid m (Armed-append m out _ h);
  }

  -- In every state that a producer can reach when its handlers run one after the other, if the
  -- timers that were armed so far all expire, with whatever error code and even if some have expired
  -- before, then every expiry returns, no session is left, every session that was open is answered
  -- with what it had collected, and as many packets are put as there were sessions.
  pub Reachable-drained :
      (mode error : ℕ) (s : State lib)
      → Reachable mode s
      → (t : State lib) × (expire error (armed s.output) s ≡ ok t)
        × (t.sessions ≡ [])
        × Every (λ k x. IsAnswered lib t.output x) s.sessions
        × (puts t.output ≡ puts s.output + length s.sessions)
  Reachable-drained mode error s r =
      let (few, well, face) = Reachable-answered_once {lib = lib} mode s r in
      let e = expire-Expired error (armed s.output) s well.distinct in
      let all_armed = Reachable-Holds lib Armed kept mode r in
      let found_none : (k : ℕ) → find k (erase_all (armed s.output) s.sessions) ≡ none = λ k.
        find-erase_all (armed s.output) k s.sessions ∙ elim (Option-cases (find k s.sessions)) [
          | inl missing ↦ ground (arith, missing)
          | inr (x, open_session) ↦ rw (all_armed k x open_session) refl
        ] in
      let none_left : e.end.sessions ≡ [] =
        e.left ∙ no_key (erase_all (armed s.output) s.sessions) (λ k. found_none k) in
      (
        e.end,
        e.returned,
        none_left,
        λ k x f. e.answered k x (all_armed k x f) f,
        omega (arith, e.count, ap length none_left),
      )
