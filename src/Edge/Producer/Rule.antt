-- ===== src/Edge/Producer/Rule.antt =====
-- A rule for what holds of the sessions and the output in every state that the producer can reach:
-- it is enough that the few moves that the handlers consist of keep it.
use crowdsensing.Common.{
  ℕ, ◌+◌, ◌%◌, ◌≡◌, sym, subst, List, [], ◌∷◌, ◌++◌, map, some, Bytes, codes, Ensures, Ensures-bind,
  Ensures-ok, Ensures-any, Option-cases, Bool-cases, inl, inr, front, u64_mod, append_assoc,
  append-nil, ◌==◌,
}
use crowdsensing.Random.{random}
use crowdsensing.Libraries.{Libraries}
use crowdsensing.Edge.HashTable.{find, assign}
use crowdsensing.Edge.SessionManager
use crowdsensing.Edge.SessionManager.{Session, Manager, add, append_payload}
use crowdsensing.Edge.Names.{decode_uri, convert_interest_name, extract_targets, extract_locname}
use crowdsensing.Edge.Producer.State.{
  State, Executor, Action, Request, put, express, arm, fetch, producer,
}
use crowdsensing.Edge.Producer.Replies.{send_data, deliver, on_data, adddata, cast}
use crowdsensing.Edge.Producer.Requests.{
  on_interest, on_interest_cloud, fetch_each, answer_packet, session_timer, edge_request, sent_name,
}
use crowdsensing.Edge.Producer.Timer.{send_data_missing, send_data_open}
use crowdsensing.Edge.Producer.Reach.{
  Event, Reachable, handle, starts, handles, query_received, cloud_query_received, reply_received,
  fetch_completed, timer_expired,
}
use crowdsensing.Edge.Execute.{after_fetch_complete, report}

module _ (lib : Libraries)
    (P : Manager lib.ndn.Data → List (Action lib.ndn.Name lib.ndn.Data) → Type 0) where
  -- What the moves have to keep.
  pub record IsKept : Type 0 where
    pub at_start : P [] []
    pub opened :
        (sid now : ℕ) (interest : lib.ndn.Interest) (m : Manager lib.ndn.Data)
        (out : List (Action lib.ndn.Name lib.ndn.Data))
        → P m out
        → P
            (add sid (answer_packet lib now interest) (session_timer sid) m)
            (out ++ arm (session_timer sid) ∷ [])
    pub expressed :
        (r : Request lib.ndn.Name) (m : Manager lib.ndn.Data)
        (out : List (Action lib.ndn.Name lib.ndn.Data))
        → P m out
        → P m (out ++ express r ∷ [])
    pub fetched :
        (r : Request lib.ndn.Name) (e : Executor) (m : Manager lib.ndn.Data)
        (out : List (Action lib.ndn.Name lib.ndn.Data))
        → P m out
        → P m (out ++ fetch r e ∷ [])
    pub appended :
        (sid : ℕ) (x : Session lib.ndn.Data) (bytes : Bytes) (m : Manager lib.ndn.Data)
        (out : List (Action lib.ndn.Name lib.ndn.Data))
        → find sid m ≡ some x
        → P m out
        → P (assign sid (record x { buffer = bytes }) m) out
    pub sent :
        (sid : ℕ) (x : Session lib.ndn.Data) (m : Manager lib.ndn.Data)
        (out : List (Action lib.ndn.Name lib.ndn.Data))
        → find sid m ≡ some x
        → P m out
        → P (SessionManager.erase sid m) (out ++ put (lib.ndn.set_content x.data_ptr x.buffer) ∷ [])

  abbrev pub Holds : State lib → Type 0
  Holds s = P s.sessions s.output

  module _ (kept : IsKept) where
    send_data-Holds :
        (error sid : ℕ) (s : State lib) → Holds s → Ensures Holds (send_data error sid s)
    send_data-Holds error sid s h = elim (Option-cases (find sid s.sessions)) [
      | inl e ↦ subst (Ensures Holds) (sym (send_data_missing error sid s e)) h
      | inr (x, e) ↦
          subst (Ensures Holds) (sym (send_data_open error sid s x e))
            (kept.sent sid x s.sessions s.output e h)
    ]

    append_payload-kept :
        (sid : ℕ) (value : Bytes) (m : Manager lib.ndn.Data)
        (out : List (Action lib.ndn.Name lib.ndn.Data))
        → P m out
        → P (append_payload sid value m).1 out
    unfolding append_payload
    append_payload-kept sid value m out h = elim (Option-cases (find sid m)) [
      | inl e ↦ rw (e, append_payload) h
      | inr (x, e) ↦ rw (e, append_payload) (kept.appended sid x _ m out e h)
    ]

    deliver-Holds :
        (sid : ℕ) (value : Bytes) (s : State lib) → Holds s → Ensures Holds (deliver sid value s)
    unfolding deliver
    deliver-Holds sid value s h =
        let a = (s.number_of_arrival_interest + 1) % u64_mod in
        let counted : State lib = record s {
          sessions = (append_payload sid value s.sessions).1;
          number_of_arrival_interest = a;
        } in
        let w = append_payload-kept sid value s.sessions s.output h in
        elim (Bool-cases (a == s.issued_interest)) [
          | inl last ↦
              rw (last, deliver)
                (Ensures-bind Holds Holds (send_data {lib = lib} 0 sid counted) _
                  (send_data-Holds 0 sid counted w) (λ t v. v))
          | inr more ↦ rw (more, deliver) w
        ]

    on_data-Holds : (value : Bytes) (s : State lib) → Holds s → Ensures Holds (on_data value s)
    unfolding on_data
    on_data-Holds value s h =
        let obj = lib.json.member (lib.json.parse value) (codes "session_id") in
        elim (Bool-cases (lib.json.is_null obj)) [
          | inl missing ↦ rw (missing, on_data) h
          | inr present ↦
              rw (present, on_data)
                (Ensures-bind (λ n. Unit {0}) Holds
                  (cast (lib.boost.lexical_cast (lib.json.string_value obj))) _
                  (Ensures-any (cast (lib.boost.lexical_cast (lib.json.string_value obj))))
                  (λ sid u. deliver-Holds sid value s h))
        ]

    adddata-Holds : (value : Bytes) (s : State lib) → Holds s → Ensures Holds (adddata value s)
    unfolding adddata on_data
    adddata-Holds value s h = on_data-Holds value s h

    expressed_all :
        (mode sid : ℕ) (ns : List Bytes) (m : Manager lib.ndn.Data)
        (out : List (Action lib.ndn.Name lib.ndn.Data))
        → P m out
        → P m (out ++ map (λ n. express (edge_request lib mode sid n)) ns)
    expressed_all mode sid [] m out h = subst (P m) (sym (append-nil out)) h
    expressed_all mode sid (n ∷ ns) m out h =
        subst (P m) (append_assoc out (express (edge_request lib mode sid n) ∷ []) _) (
          expressed_all mode sid ns m (out ++ express (edge_request lib mode sid n) ∷ [])
            (kept.expressed (edge_request lib mode sid n) m out h))

    fetch_each-Holds :
        (sid : ℕ) (ns : List Bytes) (s : State lib) → Holds s → Ensures Holds (fetch_each sid ns s)
    unfolding fetch_each
    fetch_each-Holds sid [] s h = h
    fetch_each-Holds sid (n ∷ ns) s h =
        Ensures-bind (λ a. Unit {0}) Holds (extract_locname lib.boost (sent_name sid n)) _
          (Ensures-any (extract_locname lib.boost (sent_name sid n)))
          (λ locations u.
            Ensures-bind (λ a. Unit {0}) Holds (front locations) _ (Ensures-any (front locations))
              (λ location u'.
                Ensures-bind (λ a. Unit {0}) Holds (front s.target_name) _
                  (Ensures-any (front s.target_name))
                  (λ target u''.
                    fetch_each-Holds sid ns _ (kept.fetched _ _ s.sessions s.output h))))

    on_interest-Holds :
        (now : ℕ) (interest : lib.ndn.Interest) (s : State lib)
        → Holds s
        → Ensures Holds (on_interest now interest s)
    unfolding on_interest
    on_interest-Holds now interest s h =
        let name = decode_uri lib.boost (lib.ndn.to_uri (lib.ndn.get_name interest)) in
        let sid = random s.drawn in
        let m = add sid (answer_packet lib now interest) (session_timer sid) s.sessions in
        Ensures-bind (λ a. Unit {0}) Holds (convert_interest_name lib.boost name []) _
          (Ensures-any (convert_interest_name lib.boost name []))
          (λ names u. subst (P m) (append_assoc s.output (arm (session_timer sid) ∷ []) _) (
            expressed_all s.edge_mode sid names m (s.output ++ arm (session_timer sid) ∷ [])
              (kept.opened sid now interest s.sessions s.output h)))

    on_interest_cloud-Holds :
        (now : ℕ) (interest : lib.ndn.Interest) (s : State lib)
        → Holds s
        → Ensures Holds (on_interest_cloud now interest s)
    unfolding on_interest_cloud
    on_interest_cloud-Holds now interest s h =
        let name = decode_uri lib.boost (lib.ndn.to_uri (lib.ndn.get_name interest)) in
        Ensures-bind (λ a. Unit {0}) Holds (extract_targets lib.boost name) _
          (Ensures-any (extract_targets lib.boost name))
          (λ targets u'.
            Ensures-bind (λ a. Unit {0}) Holds (convert_interest_name lib.boost name []) _
              (Ensures-any (convert_interest_name lib.boost name []))
              (λ names u.
                fetch_each-Holds (random s.drawn) names _
                  (kept.opened (random s.drawn) now interest s.sessions s.output h)))

    handle-Holds : (e : Event lib) (s : State lib) → Holds s → Ensures Holds (handle e s)
    unfolding handle after_fetch_complete
    handle-Holds (query_received now interest) s h = on_interest-Holds now interest s h
    handle-Holds (cloud_query_received now interest) s h = on_interest_cloud-Holds now interest s h
    handle-Holds (reply_received value) s h = on_data-Holds value s h
    handle-Holds (fetch_completed detector e bytes) s h =
        Ensures-bind (λ a. Unit {0}) Holds (detector (lib.ndn.block_value bytes)) _
          (Ensures-any (detector (lib.ndn.block_value bytes)))
          (λ found u. adddata-Holds (report lib found e) s h)
    handle-Holds (timer_expired error sid) s h = send_data-Holds error sid s h

    pub Reachable-Holds : (mode : ℕ) {s : State lib} → Reachable mode s → Holds s
    unfolding producer
    Reachable-Holds mode starts = kept.at_start
    Reachable-Holds mode (handles {s} r e done) =
        Ensures-ok Holds _ _ (handle-Holds e s (Reachable-Holds mode r)) done
