-- ===== src/Edge/Producer/Reach.antt =====
-- The states that the edge's producer can reach when its handlers run one after the other, each from
-- its first to its last statement. The handlers of both modes may run in any state, which is more
-- than one run of the program does. Two threads inside `send_data` are in Race.antt.
use crowdsensing.Common.{
  ℕ, ◌+◌, ◌≤◌, ◌<◌, ◌≡◌, ◌≢◌, refl, sym, List, [], ◌∷◌, ◌++◌, map, none, Bytes, Result, ok, err,
  null_pointer, Ensures, Ensures-bind, Ensures-ok, Ensures-any, length, arith, Option-cases, inl,
  inr, front, u64_mod, ◌%◌,
}
use crowdsensing.Random.{random}
use crowdsensing.Libraries.{Libraries}
use crowdsensing.Edge.HashTable.{find}
use crowdsensing.Edge.SessionManager.Invariant.{IsWellFormed}
use crowdsensing.Edge.Names.{decode_uri, convert_interest_name, extract_targets, extract_locname}
use crowdsensing.Edge.Producer.State.{
  State, Executor, Action, Request, express, arm, fetch, producer, on_register_failed,
}
use crowdsensing.Edge.Producer.Replies.{send_data, on_data}
use crowdsensing.Edge.Producer.Requests.{
  on_interest, on_interest_cloud, fetch_each, answer_packet, session_timer, edge_request, sent_name,
}
use crowdsensing.Edge.Producer.Counts.{puts, puts-append}
use crowdsensing.Edge.Producer.Once.{
  IsOnce, send_data-IsOnce, on_data-IsOnce, adddata-IsOnce, opened-IsOnce,
}
use crowdsensing.Edge.Execute.{after_fetch_complete, report}

-- What may happen to the producer.
pub data Event (lib : Libraries) : Type 0 where
  query_received : ℕ → lib.ndn.Interest → Event lib
  cloud_query_received : ℕ → lib.ndn.Interest → Event lib
  reply_received : Bytes → Event lib
  fetch_completed : (Bytes → Result (List Bytes)) → Executor → Bytes → Event lib
  timer_expired : ℕ → ℕ → Event lib

puts-map_express :
    (lib : Libraries) (edge_mode sid : ℕ) (ns : List Bytes)
    → puts (
        map {B = Action lib.ndn.Name lib.ndn.Data}
          (λ n. express (edge_request lib edge_mode sid n))
          ns)
      ≡ 0
puts-map_express lib edge_mode sid [] = refl
puts-map_express lib edge_mode sid (n ∷ ns) = puts-map_express lib edge_mode sid ns

module _ {lib : Libraries} where
  -- The handler that is bound to an event.
  unfoldable pub handle : Event lib → State lib → Result (State lib)
  handle (query_received now interest) s = on_interest now interest s
  handle (cloud_query_received now interest) s = on_interest_cloud now interest s
  handle (reply_received value) s = on_data value s
  handle (fetch_completed detector e bytes) s = after_fetch_complete detector e bytes s
  handle (timer_expired error sid) s = send_data error sid s

  -- From the constructor, by events whose handlers return.
  pub data Reachable (mode : ℕ) : State lib → Type 0 where
    starts : Reachable mode (producer lib mode)
    handles :
        {s t : State lib}
        → Reachable mode s
        → (e : Event lib) → handle e s ≡ ok t
        → Reachable mode t

  fetching-IsOnce :
      (locations : List Bytes) (r : Request lib.ndn.Name) (e : Executor) (s : State lib)
      → IsOnce s
      → IsOnce (record s { location_name = locations; output = s.output ++ fetch r e ∷ [] })
  fetching-IsOnce locations r e s h = record {
    sessions_well = h.sessions_well;
    at_most_drawn = omega (arith, h.at_most_drawn, puts-append s.output (fetch r e ∷ []));
    ids_drawn = h.ids_drawn;
    face_unset = h.face_unset;
  }

  fetch_each-IsOnce :
      (sid : ℕ) (ns : List Bytes) (s : State lib) → IsOnce s → Ensures IsOnce (fetch_each sid ns s)
  unfolding fetch_each
  fetch_each-IsOnce sid [] s h = h
  fetch_each-IsOnce sid (n ∷ ns) s h =
      Ensures-bind (λ a. Unit {0}) IsOnce (extract_locname lib.boost (sent_name sid n)) _
        (Ensures-any (extract_locname lib.boost (sent_name sid n)))
        (λ locations u.
          Ensures-bind (λ a. Unit {0}) IsOnce (front locations) _ (Ensures-any (front locations))
            (λ location u'.
              Ensures-bind (λ a. Unit {0}) IsOnce (front s.target_name) _
                (Ensures-any (front s.target_name))
                (λ target u''. fetch_each-IsOnce sid ns _ (fetching-IsOnce locations _ _ s h))))

  on_interest-IsOnce :
      (now : ℕ) (interest : lib.ndn.Interest) (s : State lib)
      → IsOnce s
      → Ensures IsOnce (on_interest now interest s)
  unfolding on_interest
  on_interest-IsOnce now interest s h =
      let name = decode_uri lib.boost (lib.ndn.to_uri (lib.ndn.get_name interest)) in
      Ensures-bind (λ a. Unit {0}) IsOnce (convert_interest_name lib.boost name []) _
        (Ensures-any (convert_interest_name lib.boost name []))
        (λ names u.
          opened-IsOnce (length names % u64_mod) s.target_name (answer_packet lib now interest)
            (session_timer (random s.drawn)) _ s h
            (puts-map_express lib s.edge_mode (random s.drawn) names))

  on_interest_cloud-IsOnce :
      (now : ℕ) (interest : lib.ndn.Interest) (s : State lib)
      → IsOnce s
      → Ensures IsOnce (on_interest_cloud now interest s)
  unfolding on_interest_cloud
  on_interest_cloud-IsOnce now interest s h =
      let name = decode_uri lib.boost (lib.ndn.to_uri (lib.ndn.get_name interest)) in
      Ensures-bind (λ a. Unit {0}) IsOnce (extract_targets lib.boost name) _
        (Ensures-any (extract_targets lib.boost name))
        (λ targets u'.
          Ensures-bind (λ a. Unit {0}) IsOnce (convert_interest_name lib.boost name []) _
            (Ensures-any (convert_interest_name lib.boost name []))
            (λ names u. fetch_each-IsOnce (random s.drawn) names _ (
              opened-IsOnce (length names % u64_mod) targets (answer_packet lib now interest)
                (session_timer (random s.drawn)) (arm (session_timer (random s.drawn)) ∷ []) s h
                refl)))

  handle-IsOnce : (e : Event lib) (s : State lib) → IsOnce s → Ensures IsOnce (handle e s)
  unfolding handle after_fetch_complete
  handle-IsOnce (query_received now interest) s h = on_interest-IsOnce now interest s h
  handle-IsOnce (cloud_query_received now interest) s h = on_interest_cloud-IsOnce now interest s h
  handle-IsOnce (reply_received value) s h = on_data-IsOnce value s h
  handle-IsOnce (fetch_completed detector e bytes) s h =
      Ensures-bind (λ a. Unit {0}) IsOnce (detector (lib.ndn.block_value bytes)) _
        (Ensures-any (detector (lib.ndn.block_value bytes)))
        (λ found u. adddata-IsOnce (report lib found e) s h)
  handle-IsOnce (timer_expired error sid) s h = send_data-IsOnce error sid s h

  producer-IsOnce : (mode : ℕ) → IsOnce (producer lib mode)
  unfolding producer find
  producer-IsOnce mode = record {
    sessions_well = record { ids = tt; distinct = tt };
    at_most_drawn = omega arith;
    ids_drawn = λ k x f. cc;
    face_unset = refl;
  }

  Reachable-IsOnce : (mode : ℕ) {s : State lib} → Reachable mode s → IsOnce s
  Reachable-IsOnce mode starts = producer-IsOnce mode
  Reachable-IsOnce mode (handles {s} r e done) =
      Ensures-ok IsOnce _ _ (handle-IsOnce e s (Reachable-IsOnce mode r)) done

  -- In every state that a producer can reach when its handlers run one after the other, whatever
  -- arrives and whenever timers expire, the packets put and the sessions open are together no more
  -- than the queries taken; every session stands under its own id, and no id twice; and reporting
  -- a failed registration ends at a null pointer.
  pub Reachable-answered_once :
      (mode : ℕ) (s : State lib)
      → Reachable mode s
      → (puts s.output + length s.sessions ≤ s.drawn)
        × IsWellFormed s.sessions
        × (on_register_failed s ≡ err null_pointer)
  unfolding on_register_failed
  Reachable-answered_once mode s r =
      let h = Reachable-IsOnce mode r in (h.at_most_drawn, h.sessions_well, rw h.face_unset)

  -- In every state that a producer can reach when its handlers run one after the other, if the
  -- generator's next number is none of those it has given, no session is open under that number.
  pub Reachable-fresh :
      (mode : ℕ) (s : State lib)
      → Reachable mode s
      → ((n : ℕ) → n < s.drawn → random n ≢ random s.drawn)
      → find (random s.drawn) s.sessions ≡ none
  Reachable-fresh mode s r no_repeat = elim (Option-cases (find (random s.drawn) s.sessions)) [
    | inl e ↦ e
    | inr (x, e) ↦
        let (n, below, same_id) = (Reachable-IsOnce mode r).ids_drawn (random s.drawn) x e in
        absurd (no_repeat n below (sym same_id))
  ]
