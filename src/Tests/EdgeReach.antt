-- ===== src/Tests/EdgeReach.antt =====
-- A producer in edge mode after its first query.
use crowdsensing.Common.{◌+◌, ◌≤◌, ◌≡◌, ok, err, null_pointer, length}
use crowdsensing.Reference.{lib, lib-IsLawful}
use crowdsensing.Edge.SessionManager.Invariant.{IsWellFormed}
use crowdsensing.Edge.Producer.State.{State, producer, on_register_failed}
use crowdsensing.Edge.Producer.Session.{opened, on_interest-opened}
use crowdsensing.Edge.Producer.Counts.{puts}
use crowdsensing.Edge.Producer.Reach.{
  Reachable, starts, handles, handle, query_received, Reachable-answered_once,
}
use crowdsensing.Tests.Setup.{interest, query, asks}

abbrev pub after_query : State lib
after_query = opened lib-IsLawful 7 interest query asks (producer lib b'e')

query_handled : handle {lib = lib} (query_received 7 interest) (producer lib b'e') ≡ ok after_query
unfolding handle
query_handled = on_interest-opened lib-IsLawful 7 interest query asks (producer lib b'e')

pub after_query-Reachable : Reachable {lib = lib} b'e' after_query
after_query-Reachable = handles starts (query_received 7 interest) query_handled

Reachable-answered_once_example :
    (puts after_query.output + length after_query.sessions ≤ after_query.drawn)
    × IsWellFormed after_query.sessions
    × (on_register_failed {lib = lib} after_query ≡ err null_pointer)
Reachable-answered_once_example =
    Reachable-answered_once {lib = lib} b'e' after_query after_query-Reachable
