-- ===== src/Edge/Names/RoundTrip.antt =====
-- What the edge makes of the name of a well-formed query.
use crowdsensing.Common.{
  refl, sym, ◌∙◌, ap, no_element, err, codes, ℕ, ◌≡◌, ◌≢◌, List, [], ◌∷◌, ◌++◌, map, arith, Bytes,
  All, All-append, All-map, Lacks, back, ok, append-nil, append_assoc, ◌>>=◌,
}
use crowdsensing.Boost.{Boost, IsBoost}
use crowdsensing.Boost.Split.{back-split, pop_back-split, split_one}
use crowdsensing.Uri.{percent_encode, encode-percent, replace_each-encode}
use crowdsensing.Edge.Names.{
  letters, decode_uri, uri_escapes, location_names, push_names, strip_brackets,
  convert_interest_name, extract_targets, extract_locname,
}
use crowdsensing.Edge.Names.Query.{
  narrowed-IsQuery, worker_name-narrowed, worker_name, IsToken, Query, IsQuery, key_text,
  query_name, Lacks-key_text, items_of_bracketed, back-key_text,
}

module _ (b : Boost) (laws : IsBoost b) where
  -- Two keys with a space between them hold no other separator than the keys do.
  Lacks-pair : (x : ℕ) (k t : Bytes) → b' ' ≢ x → Lacks x k → Lacks x t → Lacks x (k ++ (b' ' ∷ t))
  Lacks-pair x k t ne hk ht = All-append (λ c. c ≢ x) k _ hk (ne, ht)

  module _ (p f k t : Bytes) (hf : Lacks b'/' f) (hk : Lacks b'/' k × Lacks b' ' k)
      (ht : Lacks b'/' t × Lacks b' ' t) where
    convert_parts :
        (out : List Bytes)
        → convert_interest_name b ((p ++ (b'/' ∷ f)) ++ (b'/' ∷ (k ++ (b' ' ∷ t)))) out ≡ (
            back (b.split k b':') >>= λ last.
            let ls = b.split (strip_brackets b last) b',' in
            ok (push_names f t (location_names b ls) ls out))
    unfolding convert_interest_name
    convert_parts out = rw (
      back-split b laws b'/' (p ++ (b'/' ∷ f)) _ (Lacks-pair b'/' k t (omega arith) hk.0 ht.0),
      pop_back-split b laws b'/' (p ++ (b'/' ∷ f)) _ (Lacks-pair b'/' k t (omega arith) hk.0 ht.0),
      back-split b laws b'/' p f hf,
      pop_back-split b laws b'/' p f hf,
      back-split b laws b' ' k t ht.1,
      pop_back-split b laws b' ' k t ht.1,
      split_one b laws b' ' k hk.1,
    )

    extract_locname_parts :
        (sid : Bytes)
        → Lacks b'/' sid
        → extract_locname b (((p ++ (b'/' ∷ f)) ++ (b'/' ∷ (k ++ (b' ' ∷ t)))) ++ (b'/' ∷ sid))
          ≡ (back (b.split k b':') >>= λ last. ok (b.split (strip_brackets b last) b','))
    unfolding extract_locname
    extract_locname_parts sid hs = rw (
      pop_back-split b laws b'/' ((p ++ (b'/' ∷ f)) ++ (b'/' ∷ (k ++ (b' ' ∷ t)))) sid hs,
      back-split b laws b'/' (p ++ (b'/' ∷ f)) _ (Lacks-pair b'/' k t (omega arith) hk.0 ht.0),
      pop_back-split b laws b'/' (p ++ (b'/' ∷ f)) _ (Lacks-pair b'/' k t (omega arith) hk.0 ht.0),
      back-split b laws b'/' p f hf,
      pop_back-split b laws b'/' p f hf,
      back-split b laws b' ' k t ht.1,
      pop_back-split b laws b' ' k t ht.1,
      split_one b laws b' ' k hk.1,
    )

    extract_targets_parts :
        extract_targets b ((p ++ (b'/' ∷ f)) ++ (b'/' ∷ (k ++ (b' ' ∷ t))))
        ≡ (back (b.split t b':') >>= λ last. ok (b.split (strip_brackets b last) b','))
    unfolding extract_targets
    extract_targets_parts = rw (
      back-split b laws b'/' (p ++ (b'/' ∷ f)) _ (Lacks-pair b'/' k t (omega arith) hk.0 ht.0),
      back-split b laws b' ' k t ht.1,
    )

  -- A key of tokens, cut at neither character.
  pub key_free :
      (tag : Bytes) (items : List Bytes)
      → items ≢ []
      → IsToken tag
      → All IsToken items
      → Lacks b'/' (key_text b tag items) × Lacks b' ' (key_text b tag items)
  key_free tag items ne ht h = (
    Lacks-key_text b laws b'/' tag items ne (omega arith) (omega arith) ht.0
        (All-map IsToken (Lacks b'/') (λ a t. t.0) items h),
    Lacks-key_text b laws b' ' tag items ne (omega arith) (omega arith) ht.1
        (All-map IsToken (Lacks b' ') (λ a t. t.1) items h),
  )

  push_names-map :
      (q : Query) (ls out : List Bytes)
      → push_names q.function_name (key_text b q.target_tag q.targets) (location_names b ls) ls out
        ≡ out ++ map (worker_name b q) ls
  push_names-map q [] out = sym (append-nil out)
  push_names-map q (l ∷ ls) out = simp (push_names-map q ls, append_assoc)

  -- The name of a well-formed query becomes one name for each of its locations, in their order,
  -- behind what the list held.
  pub convert-query_name :
      (q : Query)
      → IsQuery q
      → (out : List Bytes)
      → convert_interest_name b (query_name b q) out ≡ ok (out ++ map (worker_name b q) q.locations)
  convert-query_name q w out =
      convert_parts q.prefix q.function_name (key_text b q.location_tag q.locations)
        (key_text b q.target_tag q.targets) w.function_name_token
        (key_free q.location_tag q.locations w.locations_ne w.location_tag_token w.locations_token)
        (key_free q.target_tag q.targets w.targets_ne w.target_tag_token w.targets_token) out
      ∙ rw
          (
            back-key_text b laws q.location_tag q.locations w.locations_ne w.locations_token,
            items_of_bracketed b laws q.locations w.locations_ne w.locations_token,
          )
          (ap ok (push_names-map q q.locations out))

  -- The targets of a well-formed query are read off its name, all of them, in order.
  pub extract_targets-query_name :
      (q : Query) → IsQuery q → extract_targets b (query_name b q) ≡ ok q.targets
  extract_targets-query_name q w =
      extract_targets_parts q.prefix q.function_name (key_text b q.location_tag q.locations)
        (key_text b q.target_tag q.targets) w.function_name_token
        (key_free q.location_tag q.locations w.locations_ne w.location_tag_token w.locations_token)
        (key_free q.target_tag q.targets w.targets_ne w.target_tag_token w.targets_token)
      ∙ rw (
        back-key_text b laws q.target_tag q.targets w.targets_ne w.targets_token,
        items_of_bracketed b laws q.targets w.targets_ne w.targets_token,
      )

  -- From the name that the edge sends for a location of a well-formed query, with a session id
  -- behind a slash, the location is read back.
  pub extract_locname-worker_name :
      (q : Query) (l sid : Bytes)
      → IsQuery q
      → IsToken l
      → Lacks b'/' sid
      → extract_locname b (worker_name b q l ++ (b'/' ∷ sid)) ≡ ok (l ∷ [])
  extract_locname-worker_name q l sid w hl hs =
      let v = narrowed-IsQuery b q l w hl in
      ap (λ s. extract_locname b (s ++ (b'/' ∷ sid))) (worker_name-narrowed b laws q l)
      ∙ extract_locname_parts (codes "/" ++ b.join (letters l) (codes "/")) q.function_name
          (key_text b (codes "#a") (l ∷ [])) (key_text b q.target_tag q.targets)
          w.function_name_token
          (key_free (codes "#a") (l ∷ []) v.locations_ne v.location_tag_token v.locations_token)
          (key_free q.target_tag q.targets w.targets_ne w.target_tag_token w.targets_token) sid hs
      ∙ rw (
        back-key_text b laws (codes "#a") (l ∷ []) v.locations_ne v.locations_token,
        items_of_bracketed b laws (l ∷ []) v.locations_ne v.locations_token,
      )

  -- A name with two slashes or more whose last part has no space, and so one key, ends in undefined
  -- behaviour: `back()` of an empty vector.
  pub convert_one_key :
      (p f k : Bytes) (out : List Bytes)
      → Lacks b'/' f
      → Lacks b'/' k
      → Lacks b' ' k
      → convert_interest_name b ((p ++ (b'/' ∷ f)) ++ (b'/' ∷ k)) out ≡ err no_element
  unfolding convert_interest_name
  convert_one_key p f k out hf hk hs = rw (
    back-split b laws b'/' (p ++ (b'/' ∷ f)) k hk,
    pop_back-split b laws b'/' (p ++ (b'/' ∷ f)) k hk,
    back-split b laws b'/' p f hf,
    pop_back-split b laws b'/' p f hf,
    split_one b laws b' ' k hs,
  )

  -- `decodeURI` undoes the percent-encoding of the ten characters `#:,[] '()*`, which writes a
  -- character as a percent sign and the two hexadecimal digits of its code, in any text without a
  -- percent sign.
  pub decode_uri-encode : (s : Bytes) → Lacks b'%' s → decode_uri b (percent_encode s) ≡ s
  unfolding decode_uri
  decode_uri-encode s h =
      ap (decode_uri b) (sym (encode-percent uri_escapes (λ x. refl) s))
      ∙ replace_each-encode b laws uri_escapes s (omega arith) h
