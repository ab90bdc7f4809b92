-- ===== src/Edge/Run/Kept.antt =====
-- What the handlers of the producer put into the output, and the mode, which they keep.
use crowdsensing.Common.{
  ℕ, ◌+◌, ◌%◌, ◌≡◌, refl, sym, subst, List, [], ◌∷◌, map, Bytes, codes, All, All-append, Ensures,
  Ensures-bind, Ensures-any, Option-cases, Bool-cases, inl, inr, front, u64_mod, ◌==◌,
}
use crowdsensing.Decimal.{to_string}
use crowdsensing.Random.{random}
use crowdsensing.Libraries.{Libraries}
use crowdsensing.Edge.HashTable.{find}
use crowdsensing.Edge.SessionManager.{append_payload}
use crowdsensing.Edge.Names.{decode_uri, convert_interest_name, extract_targets, extract_locname}
use crowdsensing.Edge.Producer.State.{State, Executor, Action, Request, put, express, arm, fetch}
use crowdsensing.Edge.Producer.Replies.{send_data, deliver, on_data, adddata, cast}
use crowdsensing.Edge.Producer.Requests.{
  on_interest, on_interest_cloud, fetch_each, session_timer, edge_request, sent_name,
}
use crowdsensing.Edge.Producer.Timer.{send_data_missing, send_data_open}

All-map_express :
    (lib : Libraries) (P : Action lib.ndn.Name lib.ndn.Data → Type 0)
    → ((r : Request lib.ndn.Name) → P (express r))
    → (m sid : ℕ) (ns : List Bytes) → All P (map (λ n. express (edge_request lib m sid n)) ns)
All-map_express lib P expresses m sid [] = tt
All-map_express lib P expresses m sid (n ∷ ns) =
    (expresses _, All-map_express lib P expresses m sid ns)

module _ {lib : Libraries} (P : Action lib.ndn.Name lib.ndn.Data → Type 0) (mode : ℕ) where
  -- All actions are as `P` says, the mode is kept, and there is no queue.
  pub record IsKept (s : State lib) : Type 0 where
    pub same_mode : s.edge_mode ≡ mode
    pub no_queue : s.num_queue ≡ 0
    pub actions : All P s.output

  module _ (puts : (d : lib.ndn.Data) → P (put d)) where
    pub send_data-IsKept :
        (error sid : ℕ) (s : State lib) → IsKept s → Ensures IsKept (send_data error sid s)
    send_data-IsKept error sid s h = elim (Option-cases (find sid s.sessions)) [
      | inl e ↦ subst (Ensures IsKept) (sym (send_data_missing error sid s e)) h
      | inr (x, e) ↦ subst (Ensures IsKept) (sym (send_data_open error sid s x e)) (record {
        same_mode = h.same_mode;
        no_queue = h.no_queue;
        actions = All-append P s.output _ h.actions (puts _, tt);
      })
    ]

    pub deliver-IsKept :
        (sid : ℕ) (value : Bytes) (s : State lib) → IsKept s → Ensures IsKept (deliver sid value s)
    unfolding deliver
    deliver-IsKept sid value s h =
        let arrived = (s.number_of_arrival_interest + 1) % u64_mod in
        let kept : State lib = record s {
          sessions = (append_payload sid value s.sessions).1;
          number_of_arrival_interest = arrived;
        } in
        let kept-IsKept : IsKept kept = record {
          same_mode = h.same_mode;
          no_queue = h.no_queue;
          actions = h.actions;
        } in
        elim (Bool-cases (arrived == s.issued_interest)) [
          | inl all_arrived ↦ rw all_arrived (
              Ensures-bind IsKept IsKept (send_data 0 sid kept) _
                (send_data-IsKept 0 sid kept kept-IsKept)
                (λ sent g. record {
                  same_mode = g.same_mode;
                  no_queue = g.no_queue;
                  actions = g.actions;
                }))
          | inr more ↦ rw more kept-IsKept
        ]

    pub on_data-IsKept :
        (value : Bytes) (s : State lib) → IsKept s → Ensures IsKept (on_data value s)
    unfolding on_data
    on_data-IsKept value s h =
        let obj = lib.json.member (lib.json.parse value) (codes "session_id") in
        elim (Bool-cases (lib.json.is_null obj)) [
          | inl null ↦ rw null h
          | inr present ↦ rw present (
              Ensures-bind (λ a. Unit {0}) IsKept
                (cast (lib.boost.lexical_cast (lib.json.string_value obj))) _
                (Ensures-any (cast (lib.boost.lexical_cast (lib.json.string_value obj))))
                (λ sid u. deliver-IsKept sid value s h))
        ]

    pub adddata-IsKept :
        (value : Bytes) (s : State lib) → IsKept s → Ensures IsKept (adddata value s)
    unfolding adddata on_data
    adddata-IsKept value s h = on_data-IsKept value s h

  module _ (arms : (sid : ℕ) → P (arm (session_timer sid))) where
    pub on_interest-IsKept :
        ((r : Request lib.ndn.Name) → P (express r))
        → (now : ℕ) (interest : lib.ndn.Interest) (s : State lib) → IsKept s
        → Ensures IsKept (on_interest now interest s)
    unfolding on_interest
    on_interest-IsKept expresses now interest s h =
        let name = decode_uri lib.boost (lib.ndn.to_uri (lib.ndn.get_name interest)) in
        Ensures-bind (λ a. Unit {0}) IsKept (convert_interest_name lib.boost name []) _
          (Ensures-any (convert_interest_name lib.boost name []))
          (λ names u. record {
            same_mode = h.same_mode;
            no_queue = h.no_queue;
            actions = All-append P s.output _ h.actions (
              arms (random s.drawn),
              All-map_express lib P expresses s.edge_mode (random s.drawn) names,
            );
          })

    module _
        (fetches : (r : Request lib.ndn.Name) (e : Executor) (n : ℕ)
          → e.session_id ≡ to_string (random n)
          → P (fetch r e)) where
      fetch_each-IsKept :
          (n : ℕ) (ns : List Bytes) (s : State lib)
          → IsKept s
          → Ensures IsKept (fetch_each (random n) ns s)
      unfolding fetch_each
      fetch_each-IsKept n [] s h = h
      fetch_each-IsKept n (m ∷ ms) s h =
          Ensures-bind (λ a. Unit {0}) IsKept (extract_locname lib.boost (sent_name (random n) m)) _
            (Ensures-any (extract_locname lib.boost (sent_name (random n) m)))
            (λ locations u.
              Ensures-bind (λ a. Unit {0}) IsKept (front locations) _
                (Ensures-any (front locations))
                (λ location u'.
                  Ensures-bind (λ a. Unit {0}) IsKept (front s.target_name) _
                    (Ensures-any (front s.target_name))
                    (λ target u''. fetch_each-IsKept n ms _ (record {
                      same_mode = h.same_mode;
                      no_queue = h.no_queue;
                      actions = All-append P s.output _ h.actions (fetches _ _ n refl, tt);
                    }))))

      pub on_interest_cloud-IsKept :
          (now : ℕ) (interest : lib.ndn.Interest) (s : State lib)
          → IsKept s
          → Ensures IsKept (on_interest_cloud now interest s)
      unfolding on_interest_cloud
      on_interest_cloud-IsKept now interest s h =
          let name = decode_uri lib.boost (lib.ndn.to_uri (lib.ndn.get_name interest)) in
          Ensures-bind (λ a. Unit {0}) IsKept (extract_targets lib.boost name) _
            (Ensures-any (extract_targets lib.boost name))
            (λ targets u'.
              Ensures-bind (λ a. Unit {0}) IsKept (convert_interest_name lib.boost name []) _
                (Ensures-any (convert_interest_name lib.boost name []))
                (λ names u. fetch_each-IsKept s.drawn names _ (record {
                  same_mode = h.same_mode;
                  no_queue = h.no_queue;
                  actions = All-append P s.output _ h.actions (arms (random s.drawn), tt);
                })))
