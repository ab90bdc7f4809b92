-- ===== src/Worker/Segments/Serve.antt =====
-- What the worker answers to Interests for segments.
use crowdsensing.Common.{
  get_elem?-lt, if◌then◌else◌, ltb, ◌⊎◌, ℕ, zero, suc, ◌+◌, ◌≤◌, ◌≡◌, ◌≢◌, refl, ap, ◌∙◌, List, [],
  ◌∷◌, ◌++◌, map, none, some, ok, err, null_pointer, arith, length, drop, get_elem?, set,
  Option-cases, inl, inr,
}
use crowdsensing.Ndn.{Ndn, IsNdn}
use crowdsensing.Worker.Segments.{Worker, put, chosen, process_segment_interest}

pub drop_at {ℓ} :
    {A : Type ℓ} (xs : List A) (k : ℕ) (a : A)
    → get_elem? xs k ≡ some a
    → drop k xs ≡ a ∷ drop (k + 1) xs
drop_at [] k a e = cc
drop_at (x ∷ xs) zero a e = ground arith
drop_at (x ∷ xs) (suc k) a e =
    drop_at xs k a e ∙ ap (λ n. a ∷ drop n (x ∷ xs)) {x = suc (k + 1)} (omega arith)

pub List-cases {ℓ} :
    {A : Type ℓ} (xs : List A) → (xs ≡ []) ⊎ ((x : A) × (rest : List A) × (xs ≡ x ∷ rest))
List-cases [] = inl refl
List-cases (x ∷ xs) = inr (x, xs, refl)

module _ {ndn : Ndn} where
  -- Signing in place keeps every content.
  pub contents-set :
      IsNdn ndn
      → (xs : List ndn.Data) (k : ℕ) (d : ndn.Data) → get_elem? xs k ≡ some d
      → map ndn.content (set xs k (ndn.sign d)) ≡ map ndn.content xs
  contents-set laws [] k d e = refl
  contents-set laws (x ∷ xs) zero d e = ground (arith, laws.content-sign d)
  contents-set laws (x ∷ xs) (suc k) d e = ap (◌∷◌ (ndn.content x)) (contents-set laws xs k d e)

  -- An Interest for a segment chooses it by number.
  chosen_named :
      IsNdn ndn
      → (interest : ndn.Interest) (first : ndn.Data) (k : ℕ) (w : Worker ndn)
      → ndn.get_name interest ≡ ndn.append_segment w.versioned_prefix k
      → chosen {ndn = ndn} interest first w ≡ (if ltb k (length w.store) then some k else none)
  unfolding chosen
  chosen_named laws interest first k w named = ground (
    arith,
    named,
    laws.size-append_segment w.versioned_prefix k,
    laws.is_segment-append_segment w.versioned_prefix k,
    laws.to_segment-append_segment w.versioned_prefix k,
  )

  -- An Interest for a segment that is in the store is answered with that packet, signed.
  pub process_segment_found :
      IsNdn ndn
      → (interest : ndn.Interest) (k : ℕ) (d : ndn.Data) (w : Worker ndn)
      → ndn.get_name interest ≡ ndn.append_segment w.versioned_prefix k
      → get_elem? w.store k ≡ some d
      → process_segment_interest {ndn = ndn} interest w
        ≡ ok (record w {
          store = set w.store k (ndn.sign d);
          output = w.output ++ put (ndn.sign d) ∷ [];
        })
  unfolding process_segment_interest
  process_segment_found laws interest k d w named found = elim (List-cases w.store) [
    | inl e ↦ ground (arith, e, get_elem?-lt w.store k d found)
    | inr (first, rest, e) ↦
        ground (arith, chosen_named laws interest first k w named, get_elem?-lt w.store k d found)
  ]

  -- An Interest for a segment past the end of a store that is not empty is answered by no Nack:
  -- the call ends at a null pointer, which it signs first.
  pub process_segment_missing :
      IsNdn ndn
      → (interest : ndn.Interest) (k : ℕ) (w : Worker ndn)
      → ndn.get_name interest ≡ ndn.append_segment w.versioned_prefix k
      → w.store ≢ []
      → length w.store ≤ k
      → process_segment_interest {ndn = ndn} interest w ≡ err null_pointer
  unfolding process_segment_interest
  process_segment_missing laws interest k w named ne past = elim (List-cases w.store) [
    | inl e ↦ absurd (ne e)
    | inr (first, rest, e) ↦ ground (arith, chosen_named laws interest first k w named)
  ]

  -- Whatever the Interest, a call that returns has put exactly one Data packet, and no Nack.
  pub process_segment_puts :
      (interest : ndn.Interest) (w t : Worker ndn)
      → process_segment_interest {ndn = ndn} interest w ≡ ok t
      → (d : ndn.Data) × (t.output ≡ w.output ++ put d ∷ [])
  unfolding process_segment_interest
  process_segment_puts interest w t e = elim (List-cases w.store) [
    | inl none_left ↦ ground (arith, none_left)
    | inr (first, rest, some_left) ↦ elim (Option-cases (chosen {ndn = ndn} interest first w)) [
      | inl null ↦ ground (arith, null)
      | inr (k, points) ↦ elim (Option-cases (get_elem? w.store k)) [
        | inl out ↦ ground (arith, points, out)
        | inr (d, found) ↦ (ndn.sign d, ground (arith, points, found))
      ]
    ]
  ]
