-- ===== src/System/Network.antt =====
-- The edge and its workers together, in edge mode, with the network as each worker's detector.
use mathlib.Core.List.{Mem, Perm}
use crowdsensing.Common.{
  none, ℕ, suc, ◌+◌, ◌-◌, ◌<◌, ◌≡◌, ◌↔◌, refl, sym, ap, ◌∙◌, subst, Bool, true, List, [], ◌∷◌, ◌++◌,
  map, some, Bytes, ok, All, length, length-map, length-Perm, get_elem?, ◌>>=◌,
}
use crowdsensing.Decimal.{to_string}
use crowdsensing.Random.{random}
use crowdsensing.Libraries.{Libraries, IsLawful}
use crowdsensing.OpenCv.{OpenCv, IsOpenCv}
use crowdsensing.Detection.{Row}
use crowdsensing.Edge.HashTable.{find}
use crowdsensing.Edge.Names.Query.{Query}
use crowdsensing.Edge.Producer.State.{State, put}
use crowdsensing.Edge.Producer.Requests.{on_interest, answer_packet}
use crowdsensing.Edge.Producer.Collect.{lines, Carries, replies, encode-Carries}
use crowdsensing.Edge.Producer.Session.{Asks, requests, query_answered}
use crowdsensing.Edge.Producer.State.{Request}
use crowdsensing.Edge.Producer.Requests.{edge_request}
use crowdsensing.Edge.Names.Query.{IsQuery}
use crowdsensing.Edge.Run.{Handed}
use crowdsensing.System.Sent.{Delivers, IsShown, IsFor, sent_to, edge-Receives, requests-IsFor}
use crowdsensing.Worker.Dnn.{inp_width, inp_height, conf_threshold, nms_threshold}
use crowdsensing.Worker.Dnn.Scan.{Candidate, candidates, Reads}
use crowdsensing.Worker.Dnn.Report.{name_of}
use crowdsensing.Worker.Dnn.Seen.{IsSeen}
use crowdsensing.Worker.Dnn.Camera.{Dnn}
use crowdsensing.Worker.Dnn.Reach.{Reached}
use crowdsensing.Worker.Encode.{encode}
use crowdsensing.Worker.Segments.{Worker}
use crowdsensing.Worker.Segments as Segments
use crowdsensing.Worker.Handlers.{location_text}
use crowdsensing.Worker.Reply.{encode_agrees}
use crowdsensing.Worker.Watch as Watch
use crowdsensing.Worker.Watch.{network}
use crowdsensing.Worker.Watch.Network.{network_answered}

module _ (cv : OpenCv) (lib : Libraries) (sid : ℕ)
    (sent : List (Bytes × Request lib.ndn.Name)) where
  -- A worker at a location that gets the Interest that the edge has sent there, with a network that numbers its unconnected outputs from 1 and names each of them, in a state that the detector
  -- reaches; its frame becomes the network's input, there are classes, and each row of the output
  -- has one score for each class.
  pub record NetworkSite : Type 0 where
    pub location : Bytes
    pub request : Request lib.ndn.Name
    pub handed : Handed (location, request) sent
    pub interest : lib.ndn.Interest
    pub delivered : Delivers lib request interest
    pub shuffle : List Bytes → List Bytes
    pub now : ℕ
    pub worker : Worker lib.ndn
    pub net : cv.Net
    pub classes : List Bytes
    pub outputs : List Bytes
    pub detector : Dnn cv
    pub blob : cv.Blob
    pub rs : List (Row cv)
    pub positive : All (λ n. 0 < n) (cv.unconnected_out_layers net)
    pub named :
        map some outputs
        ≡ map (λ n. get_elem? (cv.layer_names net) (n - 1)) (cv.unconnected_out_layers net)
    pub reached : Reached cv net classes detector
    pub made : cv.blob_from_image detector.frame inp_width inp_height ≡ some blob
    pub some_class : 0 < length classes
    pub reads : Reads cv (cv.forward net blob outputs) rs
    pub fit : All (λ r. length r.scores ≡ length classes) rs

  -- The worker's handler returns with this packet put, which says whether the target is among the
  -- class names of the boxes that non-maximum suppression keeps of the candidates, each of which
  -- is the class with the greatest score of a row, one above the threshold.
  pub record IsReport (target : Bytes) (site : NetworkSite) (answer : lib.ndn.Data) : Type 0 where
    pub found : Bool
    pub names : List Bytes
    pub detector : Dnn cv
    pub returned :
        Watch.on_interest cv lib site.shuffle site.now site.interest site.worker
          (network site.detector)
        ≡ ok (
          record site.worker { output = site.worker.output ++ Segments.put answer ∷ [] },
          network detector,
        )
    pub text :
        lib.ndn.content answer
        ≡ encode lib.json (location_text lib site.worker) [] target found (to_string sid)
    pub found_named : (found ≡ true) ↔ Mem target names
    pub kept :
        map some names
        ≡ map (name_of cv site.classes (candidates cv site.detector.frame site.rs)) (
            cv.nms_boxes
              (map (λ (c : Candidate cv). c.box) (candidates cv site.detector.frame site.rs))
              (map (λ (c : Candidate cv). c.confidence) (candidates cv site.detector.frame site.rs))
              (conf_threshold cv)
              (nms_threshold cv))
    pub seen : All (IsSeen cv site.classes site.rs) names

  -- The contents of the workers' packets.
  pub data Reports (target : Bytes) : List NetworkSite → List Bytes → Type 0 where
    no_site : Reports target [] []
    one_more :
        {sites : List NetworkSite} {ps : List Bytes} (site : NetworkSite) (answer : lib.ndn.Data)
        → IsReport target site answer
        → Reports target sites ps
        → Reports target (site ∷ sites) (lib.ndn.content answer ∷ ps)

module _ (cv : OpenCv) (cv_laws : IsOpenCv cv) {lib : Libraries} (laws : IsLawful lib) (q : Query)
    (t : Bytes) (ts : List Bytes) (first : q.targets ≡ t ∷ ts) where
  site-IsReport :
      (n : ℕ) (sent : List (Bytes × Request lib.ndn.Name))
      → IsQuery q
      → All (IsFor lib q (random n) (edge_request lib b'e' (random n))) sent
      → (site : NetworkSite cv lib (random n) sent)
      → (answer : lib.ndn.Data) × IsReport cv lib (random n) sent t site answer
        × Carries lib (random n) (lib.ndn.content answer)
  site-IsReport n sent w all site =
      let sid = random n in
      let (received, mode) =
        edge-Receives q n w site.location site.request site.interest site.delivered b'e' sent all
          site.handed in
      let (answer, found, names, d, returned, reached, text, iff, kept, seen) =
        network_answered cv lib laws cv_laws q site.location sid site.interest site.shuffle site.now
          site.worker t ts site.net site.classes site.outputs site.detector site.blob site.rs
          received mode first site.positive site.named site.reached site.made site.some_class
          site.reads site.fit in
      (
        answer,
        record {
          found = found;
          names = names;
          detector = d;
          returned = returned;
          text = text;
          found_named = iff;
          kept = kept;
          seen = seen;
        },
        subst (Carries lib sid)
            (sym (
              text
              ∙ encode_agrees lib.json (location_text lib site.worker) [] t found (to_string sid)))
            (encode-Carries lib laws (location_text lib site.worker) [] t found sid
              received.session_fits),
      )

  sites-Reports :
      (n : ℕ) (sent : List (Bytes × Request lib.ndn.Name))
      → IsQuery q
      → All (IsFor lib q (random n) (edge_request lib b'e' (random n))) sent
      → (sites : List (NetworkSite cv lib (random n) sent))
      → (ps : List Bytes) × Reports cv lib (random n) sent t sites ps
        × All (Carries lib (random n)) ps
        × (length ps ≡ length sites)
  sites-Reports n sent w all [] = ([], no_site, tt, refl)
  sites-Reports n sent w all (site ∷ sites) =
      let (ps, later, carry, count) = sites-Reports n sent w all sites in
      let (answer, report, carries) = site-IsReport n sent w all site in
      (
        lib.ndn.content answer ∷ ps,
        one_more site answer report later,
        (carries, carry),
        ap suc count,
      )

  -- The whole of edge mode with the network as each worker's detector, for a well-formed query whose
  -- new session id is not in use, on a producer whose mode is `e`, and where the library shows a
  -- name that was made of a text as that text with the ten special characters encoded. Let a worker
  -- at each of its locations get, with the name and the parameters that it was given, the Interest
  -- that the edge's handler has expressed for that location, the n-th one for the n-th location of
  -- the query; and let each worker have a network that numbers its unconnected outputs from 1 and names each of them, its detector
  -- in a state that the constructor, the thread's rounds, its end and detections reach, a frame that
  -- becomes the network's input, some classes, and one score for each class in every row of the
  -- output. Then each worker answers by one packet, which says whether the query's first target is
  -- among the class names of the boxes that non-maximum suppression keeps of the candidates, each
  -- the class with the greatest score of a row, one above the threshold; and when the packets'
  -- contents have come to the edge, location by location in any order, with nothing in between, the
  -- client has got one packet with all of them, in that order and a line feed behind each, and the
  -- session is closed.
  pub network_query_served :
      (now : ℕ) (interest : lib.ndn.Interest) (asks : Asks lib q interest) (s : State lib)
      (sites : List (
        NetworkSite cv lib
          (random s.drawn)
          (sent_to lib q.locations s (on_interest {lib = lib} now interest s))))
      → s.edge_mode ≡ b'e'
      → All (λ l. IsShown lib q (random s.drawn) l) q.locations
      → find (random s.drawn) s.sessions ≡ none
      → Perm (map (λ site. site.location) sites) q.locations
      → (ps : List Bytes) × Reports cv lib
          (random s.drawn)
          (sent_to lib q.locations s (on_interest {lib = lib} now interest s))
          t
          sites
          ps
        × ((on_interest {lib = lib} now interest s >>= replies {lib = lib} ps)
            ≡ ok (record s {
              number_of_arrival_interest = 0;
              issued_interest = 0;
              drawn = s.drawn + 1;
              output =
                  (s.output ++ requests laws now interest q asks s)
                  ++ put (lib.ndn.set_content (answer_packet lib now interest) (lines ps)) ∷ [];
            }))
  network_query_served now interest asks s sites mode shown fresh order =
      let sent = sent_to lib q.locations s (on_interest {lib = lib} now interest s) in
      let (ps, reports, carry, count) =
        sites-Reports s.drawn sent asks.query (requests-IsFor laws now interest q asks s mode shown)
          sites in
      (
        ps,
        reports,
        query_answered laws now interest q asks s fresh ps
            (count
              ∙ sym (
                  length-map (λ (site : NetworkSite cv lib (random s.drawn) sent). site.location)
                    sites)
              ∙ length-Perm order)
            carry,
      )
