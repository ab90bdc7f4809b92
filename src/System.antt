-- ===== src/System.antt =====
-- The edge and its workers together: in edge mode here, in cloud mode in System/Cloud.antt.
pub mod Cloud
pub mod Network
pub mod Sent
use crowdsensing.Common.{
  ℕ, suc, ◌+◌, ◌≡◌, refl, sym, ap, ◌∙◌, List, [], ◌∷◌, ◌++◌, map, none, some, Bytes, codes, ok, All,
  length, length-map, ◌>>=◌,
}
use crowdsensing.Random.{random}
use crowdsensing.Libraries.{Libraries, IsLawful}
use crowdsensing.Edge.HashTable.{find}
use crowdsensing.Edge.Names.Query.{Query}
use crowdsensing.Edge.Producer.State.{State, put}
use crowdsensing.Edge.Producer.Requests.{on_interest, answer_packet}
use crowdsensing.Edge.Producer.Collect.{lines, Carries, replies}
use crowdsensing.Edge.Producer.Session.{Asks, requests, query_answered}
use crowdsensing.Worker.Segments.{Worker}
use crowdsensing.Edge.Producer.State.{Request}
use crowdsensing.Edge.Producer.Requests.{edge_request}
use crowdsensing.Edge.Names.Query.{IsQuery}
use crowdsensing.Edge.Run.{Handed}
use crowdsensing.System.Sent.{Delivers, IsShown, IsFor, sent_to, edge-Receives}
use crowdsensing.System.Sent.{requests-IsFor}
use crowdsensing.Worker.Segments as Segments
use crowdsensing.Worker.Handlers as Handlers
use crowdsensing.Worker.Reply.{Receives, detection_answered}

-- A worker at a location that gets the Interest that the edge has sent there.
pub record Site (lib : Libraries) (sent : List (Bytes × Request lib.ndn.Name)) : Type 0 where
  pub location : Bytes
  pub request : Request lib.ndn.Name
  pub handed : Handed (location, request) sent
  pub interest : lib.ndn.Interest
  pub delivered : Delivers lib request interest
  pub now : ℕ
  pub seen : List Bytes
  pub image : Bytes
  pub worker : Worker lib.ndn

-- Each worker answers by one packet, and these are the packets' contents.
pub data Answer (lib : Libraries) (sent : List (Bytes × Request lib.ndn.Name))
    : List (Site lib sent) → List Bytes → Type 0 where
  no_site : Answer lib sent [] []
  one_more :
      {sites : List (Site lib sent)} {ps : List Bytes} (site : Site lib sent) (d : lib.ndn.Data)
      → Handlers.on_interest lib site.now site.seen site.image site.interest site.worker
        ≡ ok (record site.worker { output = site.worker.output ++ Segments.put d ∷ [] })
      → Answer lib sent sites ps
      → Answer lib sent (site ∷ sites) (lib.ndn.content d ∷ ps)

module _ {lib : Libraries} (laws : IsLawful lib) (q : Query) (t : Bytes) (ts : List Bytes)
    (first : q.targets ≡ t ∷ ts) where
  sites-Answer :
      (n : ℕ) (sent : List (Bytes × Request lib.ndn.Name))
      → IsQuery q
      → All (IsFor lib q (random n) (edge_request lib b'e' (random n))) sent
      → (sites : List (Site lib sent))
      → (ps : List Bytes) × Answer lib sent sites ps
        × All (Carries lib (random n)) ps
        × (length ps ≡ length sites)
  sites-Answer n sent w all [] = ([], no_site, tt, refl)
  sites-Answer n sent w all (site ∷ sites) =
      let (ps, later, carry, count) = sites-Answer n sent w all sites in
      let (received, mode) =
        edge-Receives q n w site.location site.request site.interest site.delivered b'e' sent all
          site.handed in
      let (d, found, done, text, seen, carries) =
        detection_answered laws q site.location (random n) site.interest received site.now site.seen
          site.image site.worker t ts mode first in
      (lib.ndn.content d ∷ ps, one_more site d done later, (carries, carry), ap suc count)

  -- The whole of edge mode, for a well-formed query whose new session id is not in use, on a producer
  -- whose mode is `e`, and where the library shows a name that was made of a text as that text with
  -- the ten special characters encoded: if a worker at each location gets, with the name and the
  -- parameters that it was given, the Interest that the edge's handler has expressed for that
  -- location, the n-th one for the n-th location of the query, each worker answers by one packet,
  -- and when their contents have come to the edge, with nothing in between, the client has got one
  -- packet with all of them, a line feed behind each, and the session is closed.
  pub query_served :
      (now : ℕ) (interest : lib.ndn.Interest) (asks : Asks lib q interest) (s : State lib)
      (sites : List (Site lib (sent_to lib q.locations s (on_interest {lib = lib} now interest s))))
      → s.edge_mode ≡ b'e'
      → All (λ l. IsShown lib q (random s.drawn) l) q.locations
      → find (random s.drawn) s.sessions ≡ none
      → map (λ site. site.location) sites ≡ q.locations
      → (ps : List Bytes) × Answer lib
          (sent_to lib q.locations s (on_interest {lib = lib} now interest s))
          sites
          ps
        × ((on_interest {lib = lib} now interest s >>= replies {lib = lib} ps)
            ≡ ok (record s {
              number_of_arrival_interest = 0;
              issued_interest = 0;
              drawn = s.drawn + 1;
              output =
                  (s.output ++ requests laws now interest q asks s)
                  ++ put (lib.ndn.set_content (answer_packet lib now interest) (lines ps)) ∷ [];
            }))
  query_served now interest asks s sites mode shown fresh everywhere =
      let sent = sent_to lib q.locations s (on_interest {lib = lib} now interest s) in
      let (ps, answer, carry, count) =
        sites-Answer s.drawn sent asks.query (requests-IsFor laws now interest q asks s mode shown)
          sites in
      (
        ps,
        answer,
        query_answered laws now interest q asks s fresh ps
            (count
              ∙ sym (length-map (λ (site : Site lib sent). site.location) sites)
              ∙ ap length everywhere)
            carry,
      )
