-- ===== src/Tests/EdgeDrain.antt =====
-- A producer in edge mode after its first query, and after that query's timer has expired.
use crowdsensing.Common.{◌+◌, ◌≡◌, ◌↔◌, refl, [], some, ok, length, All}
use crowdsensing.Tests.Setup.{sid}
use crowdsensing.Random.{random}
use crowdsensing.Reference.{lib, lib-IsLawful}
use crowdsensing.Edge.HashTable.{find, emplace}
use crowdsensing.Edge.SessionManager.{Session, add}
use crowdsensing.Edge.SessionManager.Every.{Every}
use crowdsensing.Edge.Producer.State.{State, producer}
use crowdsensing.Edge.Producer.Requests.{answer_packet, session_timer}
use crowdsensing.Edge.Producer.Counts.{puts}
use crowdsensing.Edge.Producer.Timer.{sent, send_data_open}
use crowdsensing.Edge.Producer.Armed.{armed}
use crowdsensing.Edge.Producer.Drain.{expire, IsAnswered, Reachable-drained}
use crowdsensing.Edge.Producer.Signature.{OfPut, Reachable-covered}
use crowdsensing.Edge.Producer.Reach.{handles, handle, timer_expired}
use crowdsensing.Tests.Setup.{interest}
use crowdsensing.Tests.EdgeReach.{after_query, after_query-Reachable}

Reachable-drained_example :
    (t : State lib) × (expire 1 (armed after_query.output) after_query ≡ ok t)
    × (t.sessions ≡ [])
    × Every (λ k x. IsAnswered lib t.output x) after_query.sessions
    × (puts t.output ≡ puts after_query.output + length after_query.sessions)
Reachable-drained_example = Reachable-drained lib b'e' 1 after_query after_query-Reachable

abbrev session : Session lib.ndn.Data
session = record {
  session_id = sid;
  data_ptr = answer_packet lib 7 interest;
  timer_ptr = session_timer sid;
  buffer = [];
}

is_open : find sid after_query.sessions ≡ some session
unfolding find add producer emplace random
is_open = refl

abbrev after_timer : State lib
after_timer = sent sid session after_query

timer_handled : handle {lib = lib} (timer_expired 0 sid) after_query ≡ ok after_timer
unfolding handle
timer_handled = send_data_open {lib = lib} 0 sid after_query session is_open

Reachable-covered_example :
    All
      (OfPut
        (λ d. (lib.ndn.signed_content d ≡ some (lib.ndn.content d)) ↔ (lib.ndn.content d ≡ [])))
      after_timer.output
Reachable-covered_example =
    Reachable-covered lib lib-IsLawful.ndn_laws b'e' after_timer
      (handles after_query-Reachable (timer_expired 0 sid) timer_handled)
