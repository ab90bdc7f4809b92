-- ===== src/Boost/Split.antt =====
-- Splitting a joined list of parts, and `back` and `pop_back` on the result.
use crowdsensing.Common.{
  ℕ, ◌≡◌, ◌≢◌, refl, sym, ◌∙◌, ap, List, [], ◌∷◌, ◌++◌, append_assoc, arith, Bytes, All, All-append,
  Lacks, subst, back, pop_back, ok,
}
use crowdsensing.Boost.{Boost, IsBoost}

-- Where the first separator stands decides both sides.
cut_unique :
    (sep : ℕ) (p q x y : Bytes)
    → Lacks sep p
    → Lacks sep q
    → p ++ (sep ∷ x) ≡ q ++ (sep ∷ y)
    → (p ≡ q) × (x ≡ y)
cut_unique sep [] [] x y hp hq e = ground arith
cut_unique sep [] (d ∷ q) x y hp hq e = ground arith
cut_unique sep (c ∷ p) [] x y hp hq e = ground arith
cut_unique sep (c ∷ p) (d ∷ q) x y hp hq e = ground (arith, cut_unique sep p q x y)

Lacks_cut : (sep : ℕ) (p x y : Bytes) → Lacks sep y → y ≢ p ++ (sep ∷ x)
Lacks_cut sep [] x [] h e = cc
Lacks_cut sep [] x (d ∷ y) h e = ground arith
Lacks_cut sep (c ∷ p) x [] h e = cc
Lacks_cut sep (c ∷ p) x (d ∷ y) h e = Lacks_cut sep p x y h.1 (ground arith)

module _ (b : Boost) (laws : IsBoost b) (sep : ℕ) where
  join_injective :
      (ps qs : List Bytes)
      → ps ≢ []
      → qs ≢ []
      → All (Lacks sep) ps
      → All (Lacks sep) qs
      → b.join ps (sep ∷ []) ≡ b.join qs (sep ∷ [])
      → ps ≡ qs
  join_injective [] qs np nq hp hq e = absurd (np refl)
  join_injective (p ∷ ps) [] np nq hp hq e = absurd (nq refl)
  join_injective (p ∷ []) (q ∷ []) np nq hp hq e =
      cc (laws.join-one p (sep ∷ []), laws.join-one q (sep ∷ []))
  join_injective (p ∷ []) (q ∷ r ∷ qs) np nq hp hq e = absurd (
      Lacks_cut sep q (b.join (r ∷ qs) (sep ∷ [])) p hp.0
        (sym (laws.join-one p (sep ∷ [])) ∙ e ∙ laws.join-cons q r qs (sep ∷ [])))
  join_injective (p ∷ r ∷ ps) (q ∷ []) np nq hp hq e = absurd (
      Lacks_cut sep p (b.join (r ∷ ps) (sep ∷ [])) q hq.0
        (sym (laws.join-one q (sep ∷ [])) ∙ sym e ∙ laws.join-cons p r ps (sep ∷ [])))
  join_injective (p ∷ r ∷ ps) (q ∷ t ∷ qs) np nq hp hq e =
      let both =
        cut_unique sep p q (b.join (r ∷ ps) (sep ∷ [])) (b.join (t ∷ qs) (sep ∷ [])) hp.0 hq.0
          (sym (laws.join-cons p r ps (sep ∷ [])) ∙ e ∙ laws.join-cons q t qs (sep ∷ [])) in
      cc (both.0, join_injective (r ∷ ps) (t ∷ qs) (λ z. cc) (λ z. cc) hp.1 hq.1 both.1)

  -- Splitting a join gives the parts back, if there is a part and none holds the separator.
  pub split-join :
      (ps : List Bytes) → ps ≢ [] → All (Lacks sep) ps → b.split (b.join ps (sep ∷ [])) sep ≡ ps
  split-join ps np hp =
      let s = b.join ps (sep ∷ []) in
      join_injective (b.split s sep) ps (laws.split-ne-nil s sep) np (laws.split-Lacks s sep) hp
        (laws.join-split s sep)

  -- A text without the separator is its own only part.
  pub split_one : (p : Bytes) → Lacks sep p → b.split p sep ≡ p ∷ []
  split_one p hp =
      sym (ap (λ s. b.split s sep) (laws.join-one p (sep ∷ [])))
      ∙ split-join (p ∷ []) (λ z. cc) (hp, tt)

  join-concat :
      (p : Bytes) (ps : List Bytes) (q : Bytes)
      → b.join (p ∷ ps ++ q ∷ []) (sep ∷ []) ≡ b.join (p ∷ ps) (sep ∷ []) ++ (sep ∷ q)
  join-concat p [] q =
      laws.join-cons p q [] (sep ∷ []) ∙ cc (laws.join-one p (sep ∷ []), laws.join-one q (sep ∷ []))
  join-concat p (r ∷ ps) q = cc (
    laws.join-cons p r (ps ++ q ∷ []) (sep ∷ []),
    laws.join-cons p r ps (sep ∷ []),
    join-concat r ps q,
    append_assoc p (sep ∷ b.join (r ∷ ps) (sep ∷ [])) (sep ∷ q),
  )

  split_at_last :
      (ps : List Bytes) (q : Bytes)
      → ps ≢ []
      → All (Lacks sep) ps
      → Lacks sep q
      → b.split (b.join ps (sep ∷ []) ++ (sep ∷ q)) sep ≡ ps ++ q ∷ []
  split_at_last [] q np hp hq = absurd (np refl)
  split_at_last (p ∷ ps) q np hp hq =
      ap (λ s. b.split s sep) (sym (join-concat p ps q))
      ∙ split-join (p ∷ ps ++ q ∷ []) (λ z. cc)
          (All-append (Lacks sep) (p ∷ ps) (q ∷ []) hp (hq, tt))

  -- What stands behind the last separator is the last part, whatever stands before it.
  pub split-concat :
      (p q : Bytes) → Lacks sep q → b.split (p ++ (sep ∷ q)) sep ≡ b.split p sep ++ q ∷ []
  split-concat p q hq =
      ap (λ s. b.split (s ++ (sep ∷ q)) sep) (sym (laws.join-split p sep))
      ∙ split_at_last (b.split p sep) q (laws.split-ne-nil p sep) (laws.split-Lacks p sep) hq

  -- A join holds no byte that is neither in a part nor the separator.
  pub Lacks-join :
      (x : ℕ) (ps : List Bytes)
      → ps ≢ []
      → sep ≢ x
      → All (Lacks x) ps
      → Lacks x (b.join ps (sep ∷ []))
  Lacks-join x [] np ne h = absurd (np refl)
  Lacks-join x (p ∷ []) np ne h = subst (Lacks x) (sym (laws.join-one p (sep ∷ []))) h.0
  Lacks-join x (p ∷ q ∷ ps) np ne h =
      subst (Lacks x) (sym (laws.join-cons p q ps (sep ∷ [])))
        (All-append (λ c. c ≢ x) p _ h.0 (ne, Lacks-join x (q ∷ ps) (λ z. cc) ne h.1))

module _ {ℓ} {A : Type ℓ} where
  pub back-concat : (xs : List A) (x : A) → back (xs ++ x ∷ []) ≡ ok x
  back-concat [] x = refl
  back-concat (y ∷ []) x = refl
  back-concat (y ∷ z ∷ xs) x = back-concat (z ∷ xs) x

  pub pop_back-concat : (xs : List A) (x : A) → pop_back (xs ++ x ∷ []) ≡ ok xs
  pop_back-concat [] x = refl
  pop_back-concat (y ∷ []) x = refl
  pop_back-concat (y ∷ z ∷ xs) x = rw (pop_back-concat (z ∷ xs) x)

-- The last part, and the parts before it.
module _ (b : Boost) (laws : IsBoost b) (sep : ℕ) (p q : Bytes) (hq : Lacks sep q) where
  pub back-split : back (b.split (p ++ (sep ∷ q)) sep) ≡ ok q
  back-split = rw (split-concat b laws sep p q hq) (back-concat (b.split p sep) q)

  pub pop_back-split : pop_back (b.split (p ++ (sep ∷ q)) sep) ≡ ok (b.split p sep)
  pop_back-split = rw (split-concat b laws sep p q hq) (pop_back-concat (b.split p sep) q)
