-- ===== src/Edge/Execute/Cloud.antt =====
-- Cloud mode: the fetches that a query starts, and the answer when all of them are complete.
use crowdsensing.Common.{
  suc, ℕ, ◌+◌, ◌^◌, ◌<◌, ◌≡◌, refl, sym, ap, ◌∙◌, List, [], ◌∷◌, ◌++◌, map, some, Bytes, Result, ok,
  arith, All, length, length-map, append_assoc, append-nil, front, ◌>>=◌,
}
use mathlib.Core.Path.{fun_ext}
use native.Mathlib.Nat.{mod-eq_of_lt}
use crowdsensing.Random.{random}
use crowdsensing.Libraries.{Libraries, IsLawful}
use crowdsensing.Decimal.{to_string, to_string-Lacks}
use crowdsensing.Edge.HashTable.{find}
use crowdsensing.Edge.SessionManager.{Session, add}
use crowdsensing.Edge.Names.Query.{Query, IsQuery, IsToken, worker_name, query_name}
use crowdsensing.Edge.Names.RoundTrip.{
  extract_locname-worker_name, extract_targets-query_name, convert-query_name, decode_uri-encode,
}
use crowdsensing.Edge.Producer.State.{State, Executor, Action, arm, fetch}
use crowdsensing.Edge.Producer.Replies.{on_data, adddata}
use crowdsensing.Edge.Producer.Requests.{
  fetch_each, cloud_request, on_interest_cloud, session_timer, answer_packet,
}
use crowdsensing.Edge.Producer.Collect.{Carries, replies, encode-Carries}
use crowdsensing.Edge.Producer.Answer.{replies-answered, answered}
use crowdsensing.Edge.Producer.Session.{Asks}
use crowdsensing.Edge.Execute.{report, after_fetch_complete}

-- The reports, where `found` is what the detector finds in each image.
abbrev pub reports : Libraries → (Bytes → List Bytes) → List (Executor × Bytes) → List Bytes
reports lib found [] = []
reports lib found ((e, bytes) ∷ es) =
    report lib (found (lib.ndn.block_value bytes)) e ∷ reports lib found es

-- The detector returns on the image that was fetched, and finds this.
abbrev pub Finds :
    (lib : Libraries)
    → (Bytes → Result (List Bytes))
    → (Bytes → List Bytes)
    → Executor × Bytes
    → Type 0
Finds lib detector found (e, bytes) =
    detector (lib.ndn.block_value bytes) ≡ ok (found (lib.ndn.block_value bytes))

length-reports :
    (lib : Libraries) (detector : Bytes → List Bytes) (es : List (Executor × Bytes))
    → length (reports lib detector es) ≡ length es
length-reports lib detector [] = refl
length-reports lib detector ((e, bytes) ∷ es) = ap suc (length-reports lib detector es)

abbrev pub OfSession : ℕ → Executor × Bytes → Type 0
OfSession sid (e, bytes) = e.session_id ≡ to_string sid

-- The fetch that a query starts for one of its locations.
abbrev pub location_fetch :
    (lib : Libraries) → Query → ℕ → Bytes → Bytes → Action lib.ndn.Name lib.ndn.Data
location_fetch lib q sid target l =
    fetch (cloud_request lib sid (worker_name lib.boost q l)) (record {
      fetcher_name = lib.ndn.to_uri (cloud_request lib sid (worker_name lib.boost q l)).name;
      location_name = l;
      target_name = target;
      session_id = to_string sid;
    })

module _ {lib : Libraries} where
  -- Reports of the edge's own detector are taken as the replies of the workers are.
  pub adddata-on_data : (p : Bytes) (s : State lib) → adddata p s ≡ on_data p s
  unfolding adddata on_data
  adddata-on_data p s = refl

  -- Fetches that complete one after the other.
  unfoldable pub completions :
      (Bytes → Result (List Bytes)) → List (Executor × Bytes) → State lib → Result (State lib)
  completions detector [] s = ok s
  completions detector ((e, bytes) ∷ es) s =
      after_fetch_complete detector e bytes s >>= completions detector es

  completions-replies :
      (detector : Bytes → Result (List Bytes)) (found : Bytes → List Bytes)
      (es : List (Executor × Bytes)) (s : State lib)
      → All (Finds lib detector found) es
      → completions detector es s ≡ replies (reports lib found es) s
  unfolding completions replies after_fetch_complete
  completions-replies detector found [] s sees = refl
  completions-replies detector found ((e, bytes) ∷ es) s (this, later) =
      let p = report lib (found (lib.ndn.block_value bytes)) e in
      ap (λ r. (r >>= λ result. adddata (report lib result e) s) >>= completions detector es) this
      ∙ ap (λ r. r >>= completions detector es) (adddata-on_data p s)
      ∙ ap (λ k. on_data p s >>= k) (fun_ext (λ t. completions-replies detector found es t later))

  reports-Carries :
      IsLawful lib
      → (detector : Bytes → List Bytes) (es : List (Executor × Bytes)) (sid : ℕ) → sid < 2 ^ 64
      → All (OfSession sid) es
      → All (Carries lib sid) (reports lib detector es)
  unfolding report
  reports-Carries laws detector [] sid h c = tt
  reports-Carries laws detector ((e, bytes) ∷ es) sid h (own, rest) = (
    rw own (encode-Carries lib laws e.location_name [] e.target_name _ sid h),
    reports-Carries laws detector es sid h rest,
  )

  -- In cloud mode, if the detector returns on all images, when as many fetches of an open session are complete as are still awaited, at
  -- least one and fewer than 2 ^ 64, the client gets one packet with what the session held and the
  -- reports in the order of completion, and the session is closed.
  pub completions-answered :
      IsLawful lib
      → (detector : Bytes → Result (List Bytes)) (found : Bytes → List Bytes)
        (es : List (Executor × Bytes)) (sid : ℕ) (x : Session lib.ndn.Data) (s : State lib)
      → sid < 2 ^ 64
      → find sid s.sessions ≡ some x
      → 0 < length es
      → s.number_of_arrival_interest + length es ≡ s.issued_interest
      → s.issued_interest < 2 ^ 64
      → All (OfSession sid) es
      → All (Finds lib detector found) es
      → completions detector es s ≡ ok (answered sid (reports lib found es) x s)
  completions-answered laws detector found es sid x s fits open_session some_es count w own sees =
      let same_length = length-reports lib found es in
      completions-replies detector found es s sees
      ∙ replies-answered sid (reports lib found es) x s open_session
          (λ none_left. absurd (omega (arith, same_length, ap length none_left)))
          (omega (arith, same_length)) w (reports-Carries laws found es sid fits own)

  -- The loop of `onInterest_Cloud` fetches from every location, in order, and touches neither the
  -- sessions nor the counters.
  fetch_each_lem :
      IsLawful lib
      → (q : Query) (sid : ℕ) (t : Bytes) (ts ls : List Bytes) (s : State lib) → IsQuery q
      → All IsToken ls
      → s.target_name ≡ t ∷ ts
      → (r : State lib) × (fetch_each sid (map (worker_name lib.boost q) ls) s ≡ ok r)
        × (r.output ≡ s.output ++ map (location_fetch lib q sid t) ls)
        × (r.sessions ≡ s.sessions)
        × (r.number_of_arrival_interest ≡ s.number_of_arrival_interest)
        × (r.issued_interest ≡ s.issued_interest)
  unfolding fetch_each
  fetch_each_lem laws q sid t ts [] s w tokens first =
      (s, refl, sym (append-nil s.output), refl, refl, refl)
  fetch_each_lem laws q sid t ts (l ∷ ls) s w (token, tokens) first =
      let next : State lib = record s {
        location_name = l ∷ [];
        output = s.output ++ location_fetch lib q sid t l ∷ [];
      } in
      let (r, done, out, sessions, arrived, issued) =
        fetch_each_lem laws q sid t ts ls next w tokens first in
      (
        r,
        rw
            (
              extract_locname-worker_name lib.boost laws.boost_laws q l (to_string sid) w token
                  (to_string-Lacks b'/' sid (λ h. omega arith)),
              fetch_each,
              ap front first,
            )
            done,
        out ∙ append_assoc s.output (location_fetch lib q sid t l ∷ []) _,
        sessions,
        arrived,
        issued,
      )

  -- The Interest of a well-formed query in cloud mode adds a session under the next id, arms its
  -- timer, and starts a fetch from every location of the query, in order, for the query's first
  -- target; as many replies are awaited as there are locations.
  pub cloud_query_opened :
      IsLawful lib
      → (now : ℕ) (interest : lib.ndn.Interest) (q : Query) (s : State lib) (t : Bytes)
        (ts : List Bytes)
      → Asks lib q interest
      → q.targets ≡ t ∷ ts
      → (r : State lib) × (on_interest_cloud now interest s ≡ ok r)
        × (r.output
            ≡ (s.output ++ arm (session_timer (random s.drawn)) ∷ [])
              ++ map (location_fetch lib q (random s.drawn) t) q.locations)
        × (r.sessions
            ≡ add
                (random s.drawn)
                (answer_packet lib now interest)
                (session_timer (random s.drawn))
                s.sessions)
        × (r.number_of_arrival_interest ≡ 0)
        × (r.issued_interest ≡ length q.locations)
  unfolding on_interest_cloud
  cloud_query_opened laws now interest q s t ts asks first =
      let sid = random s.drawn in
      let opened : State lib = record s {
        number_of_arrival_interest = 0;
        issued_interest = length q.locations;
        drawn = s.drawn + 1;
        target_name = q.targets;
        sessions = add sid (answer_packet lib now interest) (session_timer sid) s.sessions;
        output = s.output ++ arm (session_timer sid) ∷ [];
      } in
      let (r, done, out, sessions, arrived, issued) =
        fetch_each_lem laws q sid t ts q.locations opened asks.query asks.query.locations_token
          first in
      (
        r,
        rw
            (
              asks.uri,
              decode_uri-encode lib.boost laws.boost_laws (query_name lib.boost q) asks.plain_name,
              extract_targets-query_name lib.boost laws.boost_laws q asks.query,
              convert-query_name lib.boost laws.boost_laws q asks.query [],
              length-map (worker_name lib.boost q) q.locations,
              mod-eq_of_lt asks.location_count,
            )
            done,
        out,
        sessions,
        arrived,
        issued,
      )
