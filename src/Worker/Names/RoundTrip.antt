-- ===== src/Worker/Names/RoundTrip.antt =====
-- What a worker reads off the names that the edge sends.
use crowdsensing.Common.{
  refl, sym, ◌∙◌, ap, ◌≡◌, ◌∷◌, ◌++◌, arith, Bytes, All-append, Lacks, ok, ◌≢◌,
}
use crowdsensing.Boost.{Boost, IsBoost}
use crowdsensing.Boost.Split.{back-split, pop_back-split}
use crowdsensing.Uri.{encode-percent, percent_encode, replace_each-encode}
use crowdsensing.Edge.Names.Query.{
  IsToken, Query, IsQuery, key_text, query_name, worker_name, narrowed, worker_name-narrowed,
  narrowed-IsQuery, items_of_bracketed, back-key_text,
}
use crowdsensing.Edge.Names.RoundTrip.{key_free}
use crowdsensing.Worker.Names.{decode_uri, uri_escapes, extract_session_id, extract_targets}

-- The session id stands behind the last slash.
pub extract_session_id-sent :
    (b : Boost)
    → IsBoost b
    → (name sid : Bytes) → Lacks b'/' sid
    → extract_session_id b (name ++ (b'/' ∷ sid)) ≡ ok sid
unfolding extract_session_id
extract_session_id-sent b laws name sid hs = back-split b laws b'/' name sid hs

module _ (b : Boost) (laws : IsBoost b) (q : Query) (w : IsQuery q) (sid : Bytes)
    (hs : Lacks b'/' sid) where
  extract_targets-query : extract_targets b (query_name b q ++ (b'/' ∷ sid)) ≡ ok q.targets
  unfolding extract_targets
  extract_targets-query =
      let k = key_text b q.location_tag q.locations in
      let t = key_text b q.target_tag q.targets in
      let hk =
        key_free b laws q.location_tag q.locations w.locations_ne w.location_tag_token
          w.locations_token in
      let ht =
        key_free b laws q.target_tag q.targets w.targets_ne w.target_tag_token w.targets_token in
      rw (
        pop_back-split b laws b'/' (query_name b q) sid hs,
        back-split b laws b'/' (q.prefix ++ (b'/' ∷ q.function_name)) (k ++ (b' ' ∷ t))
            (All-append (λ c. c ≢ b'/') k _ hk.0 (omega arith, ht.0)),
        back-split b laws b' ' k t ht.1,
        back-key_text b laws q.target_tag q.targets w.targets_ne w.targets_token,
        items_of_bracketed b laws q.targets w.targets_ne w.targets_token,
      )

-- From the name that the edge sends for a location of a well-formed query, with a session id
-- behind a slash, a worker reads the targets of the query, all of them, in order.
pub extract_targets-worker_name :
    (b : Boost)
    → IsBoost b
    → (q : Query) (l sid : Bytes) → IsQuery q
    → IsToken l
    → Lacks b'/' sid
    → extract_targets b (worker_name b q l ++ (b'/' ∷ sid)) ≡ ok q.targets
extract_targets-worker_name b laws q l sid w hl hs =
    ap (λ s. extract_targets b (s ++ (b'/' ∷ sid))) (worker_name-narrowed b laws q l)
    ∙ extract_targets-query b laws (narrowed b q l) (narrowed-IsQuery b q l w hl) sid hs

-- The worker's `decodeURI` undoes the percent codes as the edge's does.
pub worker-decode_uri-encode :
    (b : Boost) → IsBoost b → (s : Bytes) → Lacks b'%' s → decode_uri b (percent_encode s) ≡ s
unfolding decode_uri
worker-decode_uri-encode b laws s h =
    ap (decode_uri b) (sym (encode-percent uri_escapes (λ x. refl) s))
    ∙ replace_each-encode b laws uri_escapes s (omega arith) h
