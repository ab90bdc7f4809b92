-- ===== src/Worker/Reply.antt =====
-- What a worker answers to the Interests that the edge sends.
use crowdsensing.Common.{
  ℕ, ◌^◌, ◌<◌, ◌≡◌, ◌↔◌, refl, sym, ap, ◌∙◌, Bool, true, List, [], ◌∷◌, ◌++◌, some, Bytes, codes,
  ok, arith, Lacks, same, subst, same_iff, Bool-cases, inl, inr,
}
use mathlib.Core.Logic.Or
use mathlib.Core.List.{Mem, mem-cons, not-mem-nil, mem-cons_self, mem-cons_of_mem}
use crowdsensing.Libraries.{Libraries, IsLawful}
use crowdsensing.Decimal.{to_string, to_string-Lacks}
use crowdsensing.Uri.{percent_encode}
use crowdsensing.Edge.Names.Query.{Query, IsQuery, IsToken, worker_name}
use crowdsensing.Edge.Producer.Collect.{Carries, encode-Carries}
use crowdsensing.Worker.Names.{decode_uri, extract_targets, extract_session_id}
use crowdsensing.Worker.Names.RoundTrip.{
  extract_session_id-sent, extract_targets-worker_name, worker-decode_uri-encode,
}
use crowdsensing.Json.{Json}
use crowdsensing.Edge.Encode as EdgeEncode
use crowdsensing.Worker.Encode
use crowdsensing.Worker.Segments.{Worker, put}
use crowdsensing.Worker.Handlers.{contains, detection_reply, dispatch, location_text, on_interest}

contains-Mem : (xs : List Bytes) (t : Bytes) → (contains xs t ≡ true) → Mem t xs
contains-Mem [] t e = cc
contains-Mem (x ∷ xs) t e = elim (Bool-cases (same x t)) [
  | inl hit ↦ subst (λ y. Mem t (y ∷ xs)) (sym ((same_iff x t).0 hit)) mem-cons_self
  | inr miss ↦ mem-cons_of_mem x (contains-Mem xs t (ground (arith, miss)))
]

Mem-contains : (xs : List Bytes) (t : Bytes) → Mem t xs → (contains xs t ≡ true)
Mem-contains [] t m = absurd (not-mem-nil m)
Mem-contains (x ∷ xs) t m =
    Or.elim (hlevel) (mem-cons.0 m) (λ e. ground (arith, (same_iff x t).1 (sym e)))
      (λ later. ground (arith, Mem-contains xs t later))

-- The Interest that the edge sends to location `l` for a session, as the worker receives it.
pub record Receives (lib : Libraries) (q : Query) (l : Bytes) (sid : ℕ)
    (interest : lib.ndn.Interest) : Type 0 where
  pub query : IsQuery q
  pub location : IsToken l
  pub session_fits : sid < 2 ^ 64
  pub plain_name : Lacks b'%' (worker_name lib.boost q l ++ (b'/' ∷ to_string sid))
  pub uri :
      lib.ndn.to_uri (lib.ndn.get_name interest)
      ≡ percent_encode (worker_name lib.boost q l ++ (b'/' ∷ to_string sid))

-- The two programs encode the same report to the same text.
pub encode_agrees :
    (j : Json) (location time target : Bytes) (found : Bool) (sid : Bytes)
    → Encode.encode j location time target found sid
      ≡ EdgeEncode.encode j location time target found sid
unfolding Encode.encode EdgeEncode.encode
encode_agrees j location time target found sid = refl

module _ {lib : Libraries} (laws : IsLawful lib) (q : Query) (l : Bytes) (sid : ℕ)
    (interest : lib.ndn.Interest) (got : Receives lib q l sid interest) where
  pub no_slash : Lacks b'/' (to_string sid)
  no_slash = to_string-Lacks b'/' sid (λ h. omega arith)

  pub read_uri :
      decode_uri lib.boost (lib.ndn.to_uri (lib.ndn.get_name interest))
      ≡ worker_name lib.boost q l ++ (b'/' ∷ to_string sid)
  read_uri =
      ap (decode_uri lib.boost) got.uri
      ∙ worker-decode_uri-encode lib.boost laws.boost_laws _ got.plain_name

  pub read_targets :
      extract_targets lib.boost (decode_uri lib.boost (lib.ndn.to_uri (lib.ndn.get_name interest)))
      ≡ ok q.targets
  read_targets =
      ap (extract_targets lib.boost) read_uri
      ∙ extract_targets-worker_name lib.boost laws.boost_laws q l (to_string sid) got.query
          got.location no_slash

  pub read_session_id :
      extract_session_id lib.boost
        (decode_uri lib.boost (lib.ndn.to_uri (lib.ndn.get_name interest)))
      ≡ ok (to_string sid)
  read_session_id =
      ap (extract_session_id lib.boost) read_uri
      ∙ extract_session_id-sent lib.boost laws.boost_laws (worker_name lib.boost q l)
          (to_string sid) no_slash

  -- An Interest that the edge sends in edge mode for a session and a location of a well-formed
  -- query is answered by one Data packet, whose content reports for the session whether the
  -- query's first target is among what is seen, and is a text that the edge counts for the
  -- session.
  pub detection_answered :
      (now : ℕ) (seen : List Bytes) (image : Bytes) (w : Worker lib.ndn) (t : Bytes)
      (ts : List Bytes)
      → lib.ndn.parameters interest ≡ some (codes "e")
      → q.targets ≡ t ∷ ts
      → (d : lib.ndn.Data) × (found : Bool) × (on_interest lib now seen image interest w
          ≡ ok (record w { output = w.output ++ put d ∷ [] }))
        × (lib.ndn.content d
            ≡ Encode.encode lib.json (location_text lib w) [] t found (to_string sid))
        × ((found ≡ true) ↔ Mem t seen)
        × Carries lib sid (lib.ndn.content d)
  unfolding on_interest dispatch
  detection_answered now seen image w t ts mode first =
      let d = detection_reply lib interest seen t (to_string sid) w in
      (
        d,
        contains seen t,
        ground (arith, mode, read_targets, read_session_id),
        laws.ndn_laws.content-sign _ ∙ laws.ndn_laws.content-set_content _ _,
        (contains-Mem seen t, Mem-contains seen t),
        subst (Carries lib sid)
            (sym (
              laws.ndn_laws.content-sign _
              ∙ laws.ndn_laws.content-set_content _ _
              ∙ encode_agrees lib.json (location_text lib w) [] t (contains seen t)
                  (to_string sid)))
            (encode-Carries lib laws (location_text lib w) [] t (contains seen t) sid
              got.session_fits),
      )
