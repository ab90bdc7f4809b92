-- ===== src/System/Sent.antt =====
-- The Interests between the two programs: what a call of the edge has handed to the face and to the
-- segment fetcher, and how it comes to the workers.
use crowdsensing.Common.{
  append_assoc, ℕ, ◌≡◌, refl, sym, ap, ◌∙◌, subst, List, [], ◌∷◌, ◌++◌, map, Bytes, Result, ok, err,
  All, Lacks, length, drop,
}
use crowdsensing.Decimal.{to_string}
use crowdsensing.Random.{random, random-lt}
use crowdsensing.Libraries.{Libraries, IsLawful}
use crowdsensing.Uri.{percent_encode}
use crowdsensing.Edge.Names.Query.{Query, IsQuery, IsToken, worker_name}
use crowdsensing.Edge.Producer.State.{State, Action, Request, put, express, arm, fetch}
use crowdsensing.Edge.Producer.Requests.{
  edge_request, cloud_request, on_interest, on_interest_cloud, session_timer,
}
use crowdsensing.Edge.Producer.Session.{Asks, opened, requests, on_interest-opened}
use crowdsensing.Edge.Execute.Cloud.{location_fetch, cloud_query_opened}
use crowdsensing.Edge.Run.{Handed}
use crowdsensing.Edge.Run.Allowed.{All-Handed}
use crowdsensing.Worker.Reply.{Receives}

module _ {Name Data : Type 0} where
  -- The Interests among what was handed out, in order; a fetch begins with one.
  abbrev pub expressed : List (Action Name Data) → List (Request Name)
  expressed [] = []
  expressed (put d ∷ rest) = expressed rest
  expressed (express r ∷ rest) = r ∷ expressed rest
  expressed (arm t ∷ rest) = expressed rest
  expressed (fetch r e ∷ rest) = r ∷ expressed rest

abbrev pub zip {ℓ} : {A B : Type ℓ} → List A → List B → List (A × B)
zip [] ys = []
zip (x ∷ xs) [] = []
zip (x ∷ xs) (y ∷ ys) = (x, y) ∷ zip xs ys

-- The Interests that a call in state `s` has added to the output, the first one with the first
-- location, and so on.
abbrev pub sent_to :
    (lib : Libraries)
    → List Bytes
    → State lib
    → Result (State lib)
    → List (Bytes × Request lib.ndn.Name)
sent_to lib locations s (err e) = []
sent_to lib locations s (ok o) = zip locations (expressed (drop (length s.output) o.output))

-- The Interest has the name and the parameters that were asked for.
pub record Delivers (lib : Libraries) (request : Request lib.ndn.Name) (interest : lib.ndn.Interest)
    : Type 0 where
  pub same_name : lib.ndn.get_name interest ≡ request.name
  pub same_parameters : lib.ndn.parameters interest ≡ request.parameters

-- A name made of the text for location `l` is shown as that text with the characters
-- `#:,[] '()*` encoded.
pub record IsShown (lib : Libraries) (q : Query) (sid : ℕ) (l : Bytes) : Type 0 where
  pub plain_name : Lacks b'%' (worker_name lib.boost q l ++ (b'/' ∷ to_string sid))
  pub uri :
      lib.ndn.to_uri (lib.ndn.of_uri (worker_name lib.boost q l ++ (b'/' ∷ to_string sid)))
      ≡ percent_encode (worker_name lib.boost q l ++ (b'/' ∷ to_string sid))

drop-length {ℓ} : {A : Type ℓ} (xs ys : List A) → drop (length xs) (xs ++ ys) ≡ ys
drop-length [] ys = refl
drop-length (x ∷ xs) ys = drop-length xs ys

module _ (lib : Libraries) (q : Query) (sid : ℕ) (make : Bytes → Request lib.ndn.Name) where
  -- What is known of an Interest and the location it is for.
  pub record IsFor (p : Bytes × Request lib.ndn.Name) : Type 0 where
    pub made : p.1 ≡ make (worker_name lib.boost q p.0)
    pub token : IsToken p.0
    pub shown : IsShown lib q sid p.0

  All-IsFor :
      (ls : List Bytes)
      → All IsToken ls
      → All (λ l. IsShown lib q sid l) ls
      → All IsFor (zip ls (map (λ l. make (worker_name lib.boost q l)) ls))
  All-IsFor [] tokens shown = tt
  All-IsFor (l ∷ ls) (token, tokens) (this, shown) =
      (record { made = refl; token = token; shown = this }, All-IsFor ls tokens shown)

  -- What a call has sent when it returns with these Interests added.
  sent_to_lem :
      (s o : State lib) (r : Result (State lib)) (new : List (Action lib.ndn.Name lib.ndn.Data))
      → r ≡ ok o
      → o.output ≡ s.output ++ new
      → expressed new ≡ map (λ l. make (worker_name lib.boost q l)) q.locations
      → sent_to lib q.locations s r
        ≡ zip q.locations (map (λ l. make (worker_name lib.boost q l)) q.locations)
  sent_to_lem s o r new returns out asks =
      ap (sent_to lib q.locations s) returns
      ∙ ap (λ out. zip q.locations (expressed (drop (length s.output) out))) out
      ∙ ap (λ rest. zip q.locations (expressed rest)) (drop-length s.output new)
      ∙ ap (zip q.locations) asks

  zipped-IsFor :
      (sent : List (Bytes × Request lib.ndn.Name))
      → IsQuery q
      → All (λ l. IsShown lib q sid l) q.locations
      → sent ≡ zip q.locations (map (λ l. make (worker_name lib.boost q l)) q.locations)
      → All IsFor sent
  zipped-IsFor sent w shown e =
      subst (All IsFor) (sym e) (All-IsFor q.locations w.locations_token shown)

module _ {lib : Libraries} (q : Query) (n : ℕ) (w : IsQuery q) (l : Bytes)
    (request : Request lib.ndn.Name) (interest : lib.ndn.Interest)
    (delivered : Delivers lib request interest) where
  received_from :
      request.name ≡ lib.ndn.of_uri (worker_name lib.boost q l ++ (b'/' ∷ to_string (random n)))
      → IsToken l
      → IsShown lib q (random n) l
      → Receives lib q l (random n) interest
  received_from named token shown = record {
    query = w;
    location = token;
    session_fits = random-lt n;
    plain_name = shown.plain_name;
    uri = ap lib.ndn.to_uri (delivered.same_name ∙ named) ∙ shown.uri;
  }

  -- The Interest that the worker gets when the edge has expressed one of its requests.
  pub edge-Receives :
      (mode : ℕ) (sent : List (Bytes × Request lib.ndn.Name))
      → All (IsFor lib q (random n) (edge_request lib mode (random n))) sent
      → Handed (l, request) sent
      → Receives lib q l (random n) interest
        × (lib.ndn.parameters interest ≡ (edge_request lib mode (random n) []).parameters)
  edge-Receives mode sent all handed =
      let this =
        All-Handed (IsFor lib q (random n) (edge_request lib mode (random n))) (l, request) sent all
          handed in
      (
        received_from (ap (λ (r : Request lib.ndn.Name). r.name) this.made) this.token this.shown,
        delivered.same_parameters ∙ ap (λ (r : Request lib.ndn.Name). r.parameters) this.made,
      )

  pub cloud-Receives :
      (sent : List (Bytes × Request lib.ndn.Name))
      → All (IsFor lib q (random n) (cloud_request lib (random n))) sent
      → Handed (l, request) sent
      → Receives lib q l (random n) interest
        × (lib.ndn.parameters interest ≡ (cloud_request lib (random n) []).parameters)
  cloud-Receives sent all handed =
      let this =
        All-Handed (IsFor lib q (random n) (cloud_request lib (random n))) (l, request) sent all
          handed in
      (
        received_from (ap (λ (r : Request lib.ndn.Name). r.name) this.made) this.token this.shown,
        delivered.same_parameters ∙ ap (λ (r : Request lib.ndn.Name). r.parameters) this.made,
      )

module _ (lib : Libraries) where
  expressed-requests :
      (mode sid : ℕ) (f : Bytes → Bytes) (ls : List Bytes)
      → expressed (
          map {B = Action lib.ndn.Name lib.ndn.Data}
            (λ n. express (edge_request lib mode sid n))
            (map f ls))
        ≡ map (λ l. edge_request lib mode sid (f l)) ls
  expressed-requests mode sid f [] = refl
  expressed-requests mode sid f (l ∷ ls) =
      ap (◌∷◌ (edge_request lib mode sid (f l))) (expressed-requests mode sid f ls)

  expressed-fetches :
      (q : Query) (sid : ℕ) (t : Bytes) (ls : List Bytes)
      → expressed (map (location_fetch lib q sid t) ls)
        ≡ map (λ l. cloud_request lib sid (worker_name lib.boost q l)) ls
  expressed-fetches q sid t [] = refl
  expressed-fetches q sid t (l ∷ ls) =
      ap (◌∷◌ (cloud_request lib sid (worker_name lib.boost q l))) (expressed-fetches q sid t ls)

module _ {lib : Libraries} (laws : IsLawful lib) (now : ℕ) (interest : lib.ndn.Interest) (q : Query)
    (asks : Asks lib q interest) (s : State lib) where
  -- The Interests that `onInterest` expresses in edge mode.
  pub requests_sent :
      s.edge_mode ≡ b'e'
      → sent_to lib q.locations s (on_interest {lib = lib} now interest s)
        ≡ zip q.locations (
            map
              (λ l. edge_request lib b'e' (random s.drawn) (worker_name lib.boost q l))
              q.locations)
  requests_sent mode =
      sent_to_lem lib q (random s.drawn) (edge_request lib b'e' (random s.drawn)) s
        (opened laws now interest q asks s) (on_interest {lib = lib} now interest s)
        (requests laws now interest q asks s) (on_interest-opened laws now interest q asks s) refl
        (expressed-requests lib s.edge_mode (random s.drawn) (worker_name lib.boost q) q.locations
          ∙ ap
              (λ m.
                map (λ l. edge_request lib m (random s.drawn) (worker_name lib.boost q l))
                  q.locations)
              mode)

  pub requests-IsFor :
      s.edge_mode ≡ b'e'
      → All (λ l. IsShown lib q (random s.drawn) l) q.locations
      → All
          (IsFor lib q (random s.drawn) (edge_request lib b'e' (random s.drawn)))
          (sent_to lib q.locations s (on_interest {lib = lib} now interest s))
  requests-IsFor mode shown =
      zipped-IsFor lib q (random s.drawn) (edge_request lib b'e' (random s.drawn)) _ asks.query
        shown (requests_sent mode)

  -- The Interests with which the fetches of `onInterest_Cloud` begin.
  pub fetches_sent :
      (t : Bytes) (ts : List Bytes)
      → q.targets ≡ t ∷ ts
      → sent_to lib q.locations s (on_interest_cloud {lib = lib} now interest s)
        ≡ zip q.locations
            (map (λ l. cloud_request lib (random s.drawn) (worker_name lib.boost q l)) q.locations)
  fetches_sent t ts first =
      let (o, opens, out, sessions, arrived, issued) =
        cloud_query_opened laws now interest q s t ts asks first in
      sent_to_lem lib q (random s.drawn) (cloud_request lib (random s.drawn)) s o
        (on_interest_cloud {lib = lib} now interest s)
        (arm (session_timer (random s.drawn))
          ∷ map (location_fetch lib q (random s.drawn) t) q.locations)
        opens (out ∙ append_assoc s.output (arm (session_timer (random s.drawn)) ∷ []) _)
        (expressed-fetches lib q (random s.drawn) t q.locations)

  pub fetches-IsFor :
      (t : Bytes) (ts : List Bytes)
      → q.targets ≡ t ∷ ts
      → All (λ l. IsShown lib q (random s.drawn) l) q.locations
      → All
          (IsFor lib q (random s.drawn) (cloud_request lib (random s.drawn)))
          (sent_to lib q.locations s (on_interest_cloud {lib = lib} now interest s))
  fetches-IsFor t ts first shown =
      zipped-IsFor lib q (random s.drawn) (cloud_request lib (random s.drawn)) _ asks.query shown
        (fetches_sent t ts first)
