-- ===== src/System/Cloud.antt =====
-- The edge and its workers together, in cloud mode: each worker sends its image in segments, and the
-- edge detects on what its fetcher has put together.
pub mod Network
use mathlib.Core.List.{Perm}
use crowdsensing.Common.{
  subst, Result, ℕ, suc, ◌+◌, ◌<◌, ◌≡◌, refl, sym, ap, ◌∙◌, List, [], ◌∷◌, ◌++◌, map, none, some,
  Bytes, ok, All, length, length-map, length-Perm, length-pos, false, true, get_elem?, arith, ◌>>=◌,
}
use mathlib.Core.Path.{ap₂}
use crowdsensing.Random.{random, random-lt}
use crowdsensing.Libraries.{Libraries, IsLawful}
use crowdsensing.Decimal.{to_string}
use crowdsensing.Edge.HashTable.{find}
use crowdsensing.Edge.SessionManager
use crowdsensing.Edge.SessionManager.{Session, add}
use crowdsensing.Edge.Names.Query.{Query, worker_name}
use crowdsensing.Edge.Names.Query.{IsQuery}
use crowdsensing.Edge.Run.{Handed}
use crowdsensing.Edge.Producer.State.{Request}
use crowdsensing.Edge.Execute.Cloud.{Finds}
use crowdsensing.System.Sent.{Delivers, IsShown, IsFor, sent_to, cloud-Receives, fetches-IsFor}
use crowdsensing.Edge.Encode.{encode}
use crowdsensing.Edge.Producer.State.{State, Executor, put, arm}
use crowdsensing.Edge.Producer.Requests.{
  on_interest_cloud, cloud_request, answer_packet, session_timer,
}
use crowdsensing.Edge.Producer.Collect.{lines}
use crowdsensing.Edge.Producer.Session.{Asks, new_session, find_new, erase_new}
use crowdsensing.Edge.Producer.Answer.{answered}
use crowdsensing.Edge.Execute.{contains, report}
use crowdsensing.Edge.Execute.Cloud.{
  location_fetch, completions, reports, OfSession, completions-answered, cloud_query_opened,
}
use crowdsensing.Worker.Segments.{Worker}
use crowdsensing.Worker.Segments as Segments
use crowdsensing.Worker.Segments.Cut.{flatten, segment_count}
use crowdsensing.Worker.Handlers.{versioned}
use crowdsensing.Worker.Reply.{Receives, no_slash, read_uri}
use crowdsensing.Worker.Dispatch.{Arrival}
use crowdsensing.Worker.Image.{with_image}
use crowdsensing.Worker.Fetching.{AsksSegments, handle_all, image_collected}

-- A worker at a location that gets the Interest with which the edge's fetch from there begins, and
-- then one for each further segment of its image.
pub record CloudSite (lib : Libraries) (sent : List (Bytes × Request lib.ndn.Name)) : Type 0 where
  pub location : Bytes
  pub request : Request lib.ndn.Name
  pub handed : Handed (location, request) sent
  pub first : Arrival lib
  pub later : List (Arrival lib)
  pub worker : Worker lib.ndn
  pub delivered : Delivers lib request first.interest
  pub not_segment : lib.ndn.is_segment (lib.ndn.get_name first.interest) ≡ false
  pub fits :
      (d : lib.ndn.Data)
      → get_elem? (with_image lib first.now first.seen first.image first.interest worker).store 0
        ≡ some d
      → lib.ndn.matches_data first.interest d ≡ true
  pub some_image : 0 < length first.image
  pub asks :
      AsksSegments lib
        (versioned lib first.now (lib.ndn.get_name first.interest) worker).versioned_prefix
        1
        later
  pub all_segments : 1 + length later ≡ segment_count (length first.image)

-- What the edge keeps while it fetches from a location.
abbrev pub executor_of : (lib : Libraries) → Query → ℕ → Bytes → Bytes → Executor
executor_of lib q sid target l = record {
  fetcher_name = lib.ndn.to_uri (cloud_request lib sid (worker_name lib.boost q l)).name;
  location_name = l;
  target_name = target;
  session_id = to_string sid;
}

-- Each worker answers every Interest it gets by one packet, and what the edge fetches from it are
-- the packets' contents, put together.
pub data Fetched (lib : Libraries) (q : Query) (sid : ℕ)
    (sent : List (Bytes × Request lib.ndn.Name)) (target : Bytes)
    : List (CloudSite lib sent) → List (Executor × Bytes) → Type 0 where
  no_site : Fetched lib q sid sent target [] []
  one_more :
      {sites : List (CloudSite lib sent)} {es : List (Executor × Bytes)} (site : CloudSite lib sent)
      (w : Worker lib.ndn) (ds : List lib.ndn.Data)
      → handle_all lib (site.first ∷ site.later) site.worker ≡ ok w
      → w.output ≡ site.worker.output ++ map Segments.put ds
      → Fetched lib q sid sent target sites es
      → Fetched lib q sid sent target
          (site ∷ sites)
          ((executor_of lib q sid target site.location, flatten (map lib.ndn.content ds)) ∷ es)

-- The report on the image that the worker took.
abbrev pub site_report :
    (lib : Libraries) (sent : List (Bytes × Request lib.ndn.Name)) (target : Bytes)
    (found : Bytes → List Bytes) (sid : ℕ)
    → CloudSite lib sent
    → Bytes
site_report lib sent target found sid site =
    encode lib.json site.location [] target (contains (found site.first.image) target)
      (to_string sid)

-- The image that the executor makes of what was fetched, and the one that the worker took.
abbrev pub fetched_image : (lib : Libraries) → Executor × Bytes → Bytes
fetched_image lib (e, fetched) = lib.ndn.block_value fetched

abbrev pub site_image :
    (lib : Libraries) (sent : List (Bytes × Request lib.ndn.Name)) → CloudSite lib sent → Bytes
site_image lib sent site = site.first.image

module _ {lib : Libraries} (laws : IsLawful lib) (q : Query) (t : Bytes) (ts : List Bytes)
    (first : q.targets ≡ t ∷ ts) (detector : Bytes → Result (List Bytes))
    (found : Bytes → List Bytes) where
  sites-Fetched :
      (n : ℕ) (sent : List (Bytes × Request lib.ndn.Name))
      → IsQuery q
      → All (IsFor lib q (random n) (cloud_request lib (random n))) sent
      → (sites : List (CloudSite lib sent))
      → (es : List (Executor × Bytes)) × Fetched lib q (random n) sent t sites es
        × All (OfSession (random n)) es
        × (length es ≡ length sites)
        × (reports lib found es ≡ map (site_report lib sent t found (random n)) sites)
        × (map (fetched_image lib) es ≡ map (site_image lib sent) sites)
  unfolding report
  sites-Fetched n sent w all [] = ([], no_site, tt, refl, refl, refl)
  sites-Fetched n sent w all (site ∷ sites) =
      let sid = random n in
      let (es, later, own, count, same, images) = sites-Fetched n sent w all sites in
      let (received, mode) =
        cloud-Receives q n w site.location site.request site.first.interest site.delivered sent all
          site.handed in
      let (worker, ds, done, out, image) =
        image_collected laws site.first site.later site.worker
          (
            worker_name lib.boost q site.location,
            to_string sid,
            no_slash laws q site.location sid site.first.interest received,
            read_uri laws q site.location sid site.first.interest received,
          )
          mode site.not_segment site.fits site.some_image site.asks site.all_segments in
      let bytes = flatten (map lib.ndn.content ds) in
      (
        (executor_of lib q sid t site.location, bytes) ∷ es,
        one_more site worker ds done out later,
        (refl, own),
        ap suc count,
        ap₂ ◌∷◌
            (ap (λ b. encode lib.json site.location [] t (contains (found b) t) (to_string sid))
              (laws.ndn_laws.block_value_lem bytes ∙ image))
            same,
        ap₂ ◌∷◌ (laws.ndn_laws.block_value_lem bytes ∙ image) images,
      )

  images-Finds :
      (es : List (Executor × Bytes))
      → All (λ image. detector image ≡ ok (found image)) (map (fetched_image lib) es)
      → All (Finds lib detector found) es
  images-Finds [] sees = tt
  images-Finds ((e, fetched) ∷ es) (this, later) = (this, images-Finds es later)

  -- What is fetched are the images that the workers took, and the query is served.
  pub cloud_query_images :
      (now : ℕ) (interest : lib.ndn.Interest) (s : State lib)
      (sites : List
        (CloudSite lib (sent_to lib q.locations s (on_interest_cloud {lib = lib} now interest s))))
      → Asks lib q interest
      → All (λ l. IsShown lib q (random s.drawn) l) q.locations
      → All (λ image. detector image ≡ ok (found image)) (map (site_image lib _) sites)
      → find (random s.drawn) s.sessions ≡ none
      → Perm (map (λ site. site.location) sites) q.locations
      → (es : List (Executor × Bytes)) × (r : State lib) × Fetched lib q
          (random s.drawn)
          (sent_to lib q.locations s (on_interest_cloud {lib = lib} now interest s))
          t
          sites
          es
        × ((on_interest_cloud {lib = lib} now interest s >>= completions {lib = lib} detector es)
            ≡ ok r)
        × (r.sessions ≡ s.sessions)
        × (r.output
            ≡ ((s.output ++ arm (session_timer (random s.drawn)) ∷ [])
                ++ map (location_fetch lib q (random s.drawn) t) q.locations)
              ++ put (
                  lib.ndn.set_content
                    (answer_packet lib now interest)
                    (lines (map (site_report lib _ t found (random s.drawn)) sites)))
                ∷ [])
        × (map (fetched_image lib) es ≡ map (site_image lib _) sites)
  cloud_query_images now interest s sites asks shown sees fresh order =
      let sid = random s.drawn in
      let sent = sent_to lib q.locations s (on_interest_cloud {lib = lib} now interest s) in
      let (es, fetched, own, count, same, images) =
        sites-Fetched s.drawn sent asks.query
          (fetches-IsFor laws now interest q asks s t ts first shown) sites in
      let (o, opens, out, sessions, arrived, issued) =
        cloud_query_opened laws now interest q s t ts asks first in
      let everywhere : length es ≡ length q.locations =
        count
        ∙ sym (length-map (λ (site : CloudSite lib sent). site.location) sites)
        ∙ length-Perm order in
      let x = new_session laws now interest q asks s in
      let open_session : find sid o.sessions ≡ some x =
        ap (find sid) sessions ∙ find_new laws now interest q asks s fresh in
      (
        es,
        answered sid (reports lib found es) x o,
        fetched,
        ap (λ r. r >>= completions {lib = lib} detector es) opens
            ∙ completions-answered laws detector found es sid x o (random-lt s.drawn) open_session
                (omega (arith, everywhere, length-pos q.locations asks.query.locations_ne))
                (omega (arith, arrived, issued, everywhere))
                (omega (arith, issued, asks.location_count)) own
                (images-Finds es
                  (subst (All (λ image. detector image ≡ ok (found image))) (sym images) sees)),
        ap (SessionManager.erase sid) sessions ∙ erase_new laws now interest q asks s fresh,
        ap₂
            (λ o ls.
              o ++ put (lib.ndn.set_content (answer_packet lib now interest) (lines ls)) ∷ [])
            out same,
        images,
      )
