-- ===== src/Edge/Producer/Signature.antt =====
-- What the signatures of the edge's answers cover.
use crowdsensing.Common.{ℕ, ◌≡◌, ◌↔◌, ◌∙◌, ap, List, [], some, All, All-append, All-map}
use crowdsensing.Libraries.{Libraries}
use crowdsensing.Ndn.{IsNdn}
use crowdsensing.Edge.SessionManager.Every.{
  Every, empty-Every, add-Every, assign-Every, erase-Every,
}
use crowdsensing.Edge.SessionManager.{Manager}
use crowdsensing.Edge.Producer.State.{State, Action, put, express, arm, fetch}
use crowdsensing.Edge.Producer.Requests.{answer_packet}
use crowdsensing.Edge.Producer.Reach.{Reachable}
use crowdsensing.Edge.Producer.Rule.{IsKept, Reachable-Holds}

-- A statement on the packet that an action puts.
abbrev pub OfPut {ℓ} : {N D : Type 0} → (D → Type ℓ) → Action N D → Type ℓ
OfPut Q (put d) = Q d
OfPut Q _ = Unit

module _ (lib : Libraries) (laws : IsNdn lib.ndn) where
  -- Signed when there was no content.
  abbrev SignedEmpty : lib.ndn.Data → Type 0
  SignedEmpty d = lib.ndn.signed_content d ≡ some []

  answer_packet-SignedEmpty :
      (now : ℕ) (interest : lib.ndn.Interest) → SignedEmpty (answer_packet lib now interest)
  answer_packet-SignedEmpty now interest =
      laws.signed_content-sign _
      ∙ ap some
          (laws.content-set_freshness _ _ ∙ laws.content-set_name _ _ ∙ laws.content-empty_data)

  abbrev AllSignedEmpty : Manager lib.ndn.Data → List (Action lib.ndn.Name lib.ndn.Data) → Type 0
  AllSignedEmpty m out = Every (λ k x. SignedEmpty x.data_ptr) m × All (OfPut SignedEmpty) out

  kept : IsKept lib AllSignedEmpty
  kept = record {
    at_start = (empty-Every (λ k x. SignedEmpty x.data_ptr), tt);
    opened = λ sid now interest m out (old, outs). (
      add-Every (λ k x. SignedEmpty x.data_ptr) sid (answer_packet lib now interest) _ m
          (answer_packet-SignedEmpty now interest) old,
      All-append (OfPut SignedEmpty) out _ outs (tt, tt),
    );
    expressed = λ r m out (old, outs). (old, All-append (OfPut SignedEmpty) out _ outs (tt, tt));
    fetched = λ r e m out (old, outs). (old, All-append (OfPut SignedEmpty) out _ outs (tt, tt));
    appended = λ sid x bytes m out e (old, outs).
        (assign-Every (λ k x. SignedEmpty x.data_ptr) sid _ x m e (old sid x e) old, outs);
    sent = λ sid x m out e (old, outs). (
      erase-Every (λ k x. SignedEmpty x.data_ptr) sid m old,
      All-append (OfPut SignedEmpty) out _ outs
          (laws.signed_content-set_content x.data_ptr x.buffer ∙ old sid x e, tt),
    );
  }

  covered_iff :
      (d : lib.ndn.Data)
      → SignedEmpty d
      → (lib.ndn.signed_content d ≡ some (lib.ndn.content d)) ↔ (lib.ndn.content d ≡ [])
  covered_iff d e = (λ h. cc, λ h. cc)

  OfPut-map :
      (Q R : lib.ndn.Data → Type 0)
      → ((d : lib.ndn.Data) → Q d → R d)
      → (a : Action lib.ndn.Name lib.ndn.Data) → OfPut Q a
      → OfPut R a
  OfPut-map Q R f (put d) h = f d h
  OfPut-map Q R f (express r) h = tt
  OfPut-map Q R f (arm t) h = tt
  OfPut-map Q R f (fetch r e) h = tt

  -- In every state that a producer can reach when its handlers run one after the other, the
  -- signature of an answer that was put covers the answer's content exactly if that content is empty.
  pub Reachable-covered :
      (mode : ℕ) (s : State lib)
      → Reachable mode s
      → All
          (OfPut
            (λ d. (lib.ndn.signed_content d ≡ some (lib.ndn.content d)) ↔ (lib.ndn.content d ≡ [])))
          s.output
  Reachable-covered mode s r =
      All-map (OfPut SignedEmpty) _ (OfPut-map SignedEmpty _ covered_iff) s.output
        (Reachable-Holds lib AllSignedEmpty kept mode r).1
