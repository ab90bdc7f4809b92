-- ===== src/Worker/Run/Stock.antt =====
-- What the worker's handler keeps of its store, and what it puts, whatever arrives.
use crowdsensing.Common.{
  ℕ, zero, suc, ◌+◌, ◌-◌, ◌≡◌, ◌⊎◌, inl, inr, refl, sym, ap, ◌∙◌, subst, List, [], ◌∷◌, ◌++◌, map,
  some, Bytes, ok, All, All-append, length, length-map, length-set, get_elem?, set, Option-cases,
  arith, same,
}
use crowdsensing.Ndn.{Ndn, IsNdn}
use crowdsensing.Worker.Segments.{
  Worker, Reply, put, chosen, process_segment_interest, populate_store, max_segment_size,
  empty_segment, segment, populate_loop,
}
use crowdsensing.Worker.Segments.Cut.{
  flatten, segments, segment_count, packets, length-packets, populate_store_lem, image_stored,
  contents-packets,
}
use crowdsensing.Worker.Segments.Serve.{List-cases, contents-set}

module _ (ndn : Ndn) where
  -- The packets are segments `k`, `k + 1`, … of a version, with `last` as their final block.
  abbrev pub Numbered : ndn.Name → ℕ → ℕ → List ndn.Data → Type 0
  Numbered v last k [] = Unit
  Numbered v last k (d ∷ ds) =
      ((ndn.data_name d ≡ ndn.append_segment v k) × (ndn.final_block d ≡ some last))
      × Numbered v last (k + 1) ds

  -- The packets carry an image, cut into segments, under the names of a version.
  pub record IsVersion (v : ndn.Name) (ds : List ndn.Data) : Type 0 where
    pub names : Numbered v (length ds - 1) 0 ds
    pub cut :
        map ndn.content ds ≡ segments max_segment_size (flatten (map ndn.content ds)) 0 (length ds)

  -- A packet whose signature was made of the content that it has.
  abbrev pub IsSigned : Reply ndn.Interest ndn.Data → Type 0
  IsSigned r = (d : ndn.Data) × (r ≡ put d) × (ndn.signed_content d ≡ some (ndn.content d))

  pub record IsStocked (cd : Bytes) (w : Worker ndn) : Type 0 where
    pub same_cd : w.cd_string ≡ cd
    pub stock : (w.store ≡ []) ⊎ IsVersion w.versioned_prefix w.store
    pub signed : All IsSigned w.output

  module _ (laws : IsNdn ndn) where
    pub IsSigned-put : (d : ndn.Data) → IsSigned (put (ndn.sign d))
    IsSigned-put d =
        (ndn.sign d, refl, laws.signed_content-sign d ∙ ap some (sym (laws.content-sign d)))

    Numbered-set :
        (v : ndn.Name) (last i : ℕ) (ds : List ndn.Data) (k : ℕ) (d : ndn.Data)
        → get_elem? ds k ≡ some d
        → Numbered v last i ds
        → Numbered v last i (set ds k (ndn.sign d))
    Numbered-set v last i [] k d e h = tt
    Numbered-set v last i (x ∷ xs) zero d e ((name, final), rest) =
        let same : x ≡ d = cc in
        (
          (
            laws.data_name-sign d ∙ ap ndn.data_name (sym same) ∙ name,
            laws.final_block-sign d ∙ ap ndn.final_block (sym same) ∙ final,
          ),
          rest,
        )
    Numbered-set v last i (x ∷ xs) (suc k) d e (this, rest) =
        (this, Numbered-set v last (i + 1) xs k d e rest)

    IsVersion-set :
        (v : ndn.Name) (ds : List ndn.Data) (k : ℕ) (d : ndn.Data)
        → get_elem? ds k ≡ some d
        → IsVersion v ds
        → IsVersion v (set ds k (ndn.sign d))
    IsVersion-set v ds k d e h =
        let same = contents-set laws ds k d e in
        let count = length-set ds k (ndn.sign d) in
        record {
          names = rw count (Numbered-set v (length ds - 1) 0 ds k d e h.names);
          cut = rw (count, same) h.cut;
        }

    process_segment_lem :
        (interest : ndn.Interest) (w t : Worker ndn)
        → process_segment_interest {ndn = ndn} interest w ≡ ok t
        → (k : ℕ) × (d : ndn.Data) × (get_elem? w.store k ≡ some d)
          × (t ≡ record w {
            store = set w.store k (ndn.sign d);
            output = w.output ++ put (ndn.sign d) ∷ [];
          })
    unfolding process_segment_interest
    process_segment_lem interest w t e = elim (List-cases w.store) [
      | inl none_left ↦ ground (arith, none_left)
      | inr (first, rest, some_left) ↦ elim (Option-cases (chosen {ndn = ndn} interest first w)) [
        | inl null ↦ ground (arith, null)
        | inr (k, points) ↦ elim (Option-cases (get_elem? w.store k)) [
          | inl out ↦ ground (arith, points, out)
          | inr (d, found) ↦ (k, d, found, ground (arith, points, found))
        ]
      ]
    ]

    pub process_segment-IsStocked :
        (cd : Bytes) (interest : ndn.Interest) (w t : Worker ndn)
        → IsStocked cd w
        → process_segment_interest {ndn = ndn} interest w ≡ ok t
        → IsStocked cd t
    process_segment-IsStocked cd interest w t h e =
        let (k, d, found, same) = process_segment_lem interest w t e in
        subst (IsStocked cd) (sym same) (record {
          same_cd = h.same_cd;
          stock = elim h.stock [
            | inl empty ↦ let e' = subst (λ ds. get_elem? ds k ≡ some d) empty found in cc
            | inr version ↦ inr (IsVersion-set w.versioned_prefix w.store k d found version)
          ];
          signed = All-append IsSigned w.output _ h.signed (IsSigned-put d, tt);
        })

    Numbered-packets :
        (image : Bytes) (v : ndn.Name) (last i m : ℕ)
        → Numbered v last i
            (map (λ d. ndn.set_final_block d last) (packets ndn max_segment_size image v i m))
    Numbered-packets image v last i zero = tt
    Numbered-packets image v last i (suc m) = (
      (
        laws.data_name-set_final_block _ last
            ∙ laws.data_name-set_content _ _
            ∙ laws.data_name-set_freshness _ 10000
            ∙ laws.data_name-set_name _ _,
        laws.final_block-set_final_block _ last,
      ),
      Numbered-packets image v last (i + 1) m,
    )

    -- What `populateStore` leaves in an empty store.
    pub populate_store-IsVersion :
        (image : Bytes) (w : Worker ndn)
        → w.store ≡ []
        → IsVersion w.versioned_prefix (populate_store image w).store
    unfolding populate_store populate_loop segment
    populate_store-IsVersion [] w e =
        let d = ndn.set_final_block (empty_segment ndn w.versioned_prefix 0) 0 in
        let made : (populate_store [] w).store ≡ d ∷ [] = rw e refl in
        let bare : ndn.content d ≡ [] =
          laws.content-set_final_block _ 0
          ∙ laws.content-set_freshness _ 10000
          ∙ laws.content-set_name _ _
          ∙ laws.content-empty_data in
        subst (IsVersion w.versioned_prefix) (sym made) (record {
          names = (
            (
              laws.data_name-set_final_block _ 0
                  ∙ laws.data_name-set_freshness _ 10000
                  ∙ laws.data_name-set_name _ _,
              laws.final_block-set_final_block _ 0,
            ),
            tt,
          );
          cut = rw bare refl;
        })
    populate_store-IsVersion (b ∷ bs) w e =
        let image = b ∷ bs in
        let n = segment_count (length image) in
        let stored = (populate_store image w).store in
        let made = ap (λ (t : Worker ndn). t.store) (populate_store_lem image w (omega arith) e) in
        let count : length stored ≡ n =
          ap length made
          ∙ length-map _ _
          ∙ length-packets ndn max_segment_size image w.versioned_prefix 0 n in
        record {
          names =
              subst (λ m. Numbered w.versioned_prefix (m - 1) 0 stored) (sym count)
                (subst (Numbered w.versioned_prefix (n - 1) 0) (sym made)
                  (Numbered-packets image w.versioned_prefix (n - 1) 0 n));
          cut =
              ap (map ndn.content) made
              ∙ contents-packets laws image w.versioned_prefix (n - 1) 0 n
              ∙ ap (λ b. segments max_segment_size b 0 n)
                  (sym (image_stored laws image w (omega arith) e))
              ∙ ap (segments max_segment_size (flatten (map ndn.content stored)) 0) (sym count);
        }
