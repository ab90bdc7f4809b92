-- ===== src/Tests/EdgeProducer.antt =====
-- The handlers of the edge's producer on a query, its replies and its timer.
use crowdsensing.Common.{
  null_pointer, false, true, ◌≡◌, refl, [], ◌∷◌, ◌++◌, none, some, ok, codes, arith, ◌>>=◌,
}
use crowdsensing.Tests.Setup.{sid}
use crowdsensing.Reference.{lib, lib-IsLawful}
use crowdsensing.Edge.HashTable.{find}
use crowdsensing.Edge.Producer.State.{State, put}
use crowdsensing.Edge.Producer.Requests.{on_interest, answer_packet}
use crowdsensing.Edge.Producer.Collect.{lines, replies}
use crowdsensing.Edge.Producer.Answer.{answered, replies-answered, replies_unawaited}
use crowdsensing.Edge.Producer.Session.{requests, new_session, query_answered, overlapping_query}
use crowdsensing.Edge.Producer.Race.{crashed, interleave, both_begin, steps_of, race_null_pointer}
use crowdsensing.Tests.Setup.{
  interest, query, asks, start, start-fresh, busy, busy-fresh, busy-open, open_session, payloads,
  payloads_new-Carries, payloads_9-Carries,
}

query_answered_example :
    (on_interest {lib = lib} 7 interest start >>= replies {lib = lib} (payloads sid))
    ≡ ok (record start {
      drawn = 1;
      output =
          requests lib-IsLawful 7 interest query asks start
          ++ put (lib.ndn.set_content (answer_packet lib 7 interest) (lines (payloads sid))) ∷ [];
    })
query_answered_example =
    query_answered lib-IsLawful 7 interest query asks start start-fresh (payloads sid) refl
      payloads_new-Carries

overlapping_query_example :
    (t : State lib) × ((on_interest {lib = lib} 7 interest busy
        >>= replies {lib = lib} (payloads 9))
      ≡ ok t)
    × (t.output
        ≡ requests lib-IsLawful 7 interest query asks busy
          ++ put (lib.ndn.set_content lib.ndn.empty_data (codes "old" ++ lines (payloads 9))) ∷ [])
    × (t.issued_interest ≡ 0)
    × (find 9 t.sessions ≡ none)
    × (find sid t.sessions ≡ some (new_session lib-IsLawful 7 interest query asks busy))
overlapping_query_example =
    overlapping_query lib-IsLawful 7 interest query asks busy busy-fresh 9 open_session (payloads 9)
      busy-open refl payloads_9-Carries

replies-answered_example :
    replies {lib = lib} (payloads 9) busy
    ≡ ok (answered {lib = lib} 9 (payloads 9) open_session busy)
replies-answered_example =
    replies-answered {lib = lib} 9 (payloads 9) open_session busy busy-open (λ z. cc) refl
      (omega arith) payloads_9-Carries

-- The same state, but with no reply awaited.
abbrev idle : State lib
idle = record busy { issued_interest = 0 }

replies_unawaited_example :
    (t : State lib) × (replies {lib = lib} (payloads 9) idle ≡ ok t)
    × (t.output ≡ [])
    × (find 9 t.sessions
        ≡ some (record open_session { buffer = codes "old" ++ lines (payloads 9) }))
replies_unawaited_example =
    replies_unawaited {lib = lib} 9 (payloads 9) open_session idle busy-open refl (omega arith)
      payloads_9-Carries

race_null_pointer_example :
    (interleave {lib = lib} 9 9
      (true ∷ steps_of false (true ∷ true ∷ []))
      (both_begin {lib = lib} busy)).first
    ≡ crashed null_pointer
race_null_pointer_example = race_null_pointer {lib = lib} 9 busy open_session busy-open
