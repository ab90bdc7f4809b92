-- ===== src/Worker/Fetching.antt =====
-- Cloud mode as the edge's segment fetcher sees it: one Interest for the image, then others for the
-- segments.
use mathlib.Core.Path.{fun_ext, ap₂}
use crowdsensing.Common.{
  subst, ℕ, ◌+◌, ◌<◌, ◌≡◌, refl, sym, ap, ◌∙◌, true, false, List, [], ◌∷◌, ◌++◌, map, none, some,
  Result, ok, arith, length, length-set, length-map, set, get_elem?, take, drop, take_all, inl, inr,
  ◌>>=◌, append_assoc,
}
use crowdsensing.Libraries.{Libraries, IsLawful}
use crowdsensing.Ndn.{Ndn, IsNdn}
use crowdsensing.Worker.Segments.{Worker, put, process_segment_interest, chosen}
use crowdsensing.Worker.Segments.Cut.{flatten, segment_count, image_stored}
use crowdsensing.Worker.Segments.Serve.{List-cases, contents-set}
use crowdsensing.Worker.Segments.Fetch.{InOrder, serve, Served, serve-Served, length-populate_store}
use crowdsensing.Worker.Handlers.{on_interest, versioned}
use crowdsensing.Worker.Dispatch.{HasSlash, Arrival, segment_dispatched, image_dispatched}
use crowdsensing.Worker.Image.{with_image, with_image-output, with_image-versioned}

-- The arrivals ask in cloud mode for the segments `k`, `k + 1`, … of a version, in order.
abbrev pub AsksSegments : (lib : Libraries) → lib.ndn.Name → ℕ → List (Arrival lib) → Type 0
AsksSegments lib v k [] = Unit
AsksSegments lib v k (a ∷ later) =
    ((lib.ndn.get_name a.interest ≡ lib.ndn.append_segment v k)
      × (lib.ndn.parameters a.interest ≡ none)
      × HasSlash lib a.interest)
    × AsksSegments lib v (k + 1) later

-- The handler on arrivals one after the other.
unfoldable pub handle_all :
    (lib : Libraries) → List (Arrival lib) → Worker lib.ndn → Result (Worker lib.ndn)
handle_all lib [] w = ok w
handle_all lib (a ∷ later) w =
    on_interest lib a.now a.seen a.image a.interest w >>= handle_all lib later

module _ {ndn : Ndn} where
  -- An Interest that names no segment is answered with the first one, if it matches.
  first_served :
      (interest : ndn.Interest) (d : ndn.Data) (ds : List ndn.Data) (w : Worker ndn)
      → w.store ≡ d ∷ ds
      → ndn.is_segment (ndn.get_name interest) ≡ false
      → ndn.matches_data interest d ≡ true
      → process_segment_interest {ndn = ndn} interest w
        ≡ ok (record w {
          store = set w.store 0 (ndn.sign d);
          output = w.output ++ put (ndn.sign d) ∷ [];
        })
  unfolding process_segment_interest chosen
  first_served interest d ds w e not_segment fits = ground (arith, e, not_segment, fits)

  -- After it, Interests for the other segments bring the rest of the store.
  all-Served :
      IsNdn ndn
      → (interest : ndn.Interest) (is : List ndn.Interest) (d : ndn.Data) (ds : List ndn.Data)
        (w : Worker ndn)
      → w.store ≡ d ∷ ds
      → ndn.is_segment (ndn.get_name interest) ≡ false
      → ndn.matches_data interest d ≡ true
      → InOrder ndn w.versioned_prefix 1 is
      → length is ≡ length ds
      → Served ndn (interest ∷ is) w (map ndn.content w.store)
  unfolding serve
  all-Served laws interest is d ds w e not_segment fits order count =
      let next : Worker ndn = record w {
        store = set w.store 0 (ndn.sign d);
        output = w.output ++ put (ndn.sign d) ∷ [];
      } in
      let rest =
        serve-Served ndn laws is 1 next order
          (omega (arith, length-set w.store 0 (ndn.sign d), ap length e, count)) in
      let contents =
        contents-set laws w.store 0 d (ap (λ xs. get_elem? xs 0) e) ∙ ap (map ndn.content) e in
      record {
        final = rest.final;
        packets_put = ndn.sign d ∷ rest.packets_put;
        returned =
            ap (λ r. r >>= serve ndn is) (first_served interest d ds w e not_segment fits)
            ∙ rest.returned;
        answers =
            rest.answers ∙ append_assoc w.output (put (ndn.sign d) ∷ []) (map put rest.packets_put);
        carried =
            ap₂ ◌∷◌ (laws.content-sign d) (
              rest.carried
              ∙ ap (λ cs. take (length is) (drop 1 cs)) contents
              ∙ ap (λ n. take n (map ndn.content ds)) (count ∙ sym (length-map ndn.content ds))
              ∙ take_all (map ndn.content ds))
            ∙ sym (ap (map ndn.content) e);
      }

module _ {lib : Libraries} (laws : IsLawful lib) where
  handle_all-serve :
      (v : lib.ndn.Name) (k : ℕ) (later : List (Arrival lib))
      → AsksSegments lib v k later
      → (w : Worker lib.ndn)
      → handle_all lib later w ≡ serve lib.ndn (map (λ a. a.interest) later) w
  unfolding handle_all serve
  handle_all-serve v k [] asks w = refl
  handle_all-serve v k (a ∷ later) asks w =
      ap (λ r. r >>= handle_all lib later)
        (segment_dispatched laws a asks.0.2 asks.0.1 w
          (ap lib.ndn.is_segment asks.0.0 ∙ laws.ndn_laws.is_segment-append_segment v k))
      ∙ ap (λ f. process_segment_interest {ndn = lib.ndn} a.interest w >>= f)
          (fun_ext (handle_all-serve v (k + 1) later asks.1))

  asks-InOrder :
      (v : lib.ndn.Name) (k : ℕ) (later : List (Arrival lib))
      → AsksSegments lib v k later
      → InOrder lib.ndn v k (map (λ a. a.interest) later)
  asks-InOrder v k [] asks = tt
  asks-InOrder v k (a ∷ later) asks = (asks.0.0, asks-InOrder v (k + 1) later asks.1)

  -- In cloud mode, an Interest with a slash in its name that names no segment, and that the first
  -- segment matches, takes the camera's image, which is not empty, and is answered with the first
  -- segment; when Interests for all other segments of the new version follow in order, each is
  -- answered, and the contents of the answers, put together, are the image taken at first,
  -- whatever the camera shows later.
  pub image_collected :
      (a : Arrival lib) (later : List (Arrival lib)) (w : Worker lib.ndn)
      → HasSlash lib a.interest
      → lib.ndn.parameters a.interest ≡ none
      → lib.ndn.is_segment (lib.ndn.get_name a.interest) ≡ false
      → ((d : lib.ndn.Data)
          → get_elem? (with_image lib a.now a.seen a.image a.interest w).store 0 ≡ some d
          → lib.ndn.matches_data a.interest d ≡ true)
      → 0 < length a.image
      → AsksSegments lib
          (versioned lib a.now (lib.ndn.get_name a.interest) w).versioned_prefix
          1
          later
      → 1 + length later ≡ segment_count (length a.image)
      → (t : Worker lib.ndn) × (ds : List lib.ndn.Data) × (handle_all lib (a ∷ later) w ≡ ok t)
        × (t.output ≡ w.output ++ map put ds)
        × (flatten (map lib.ndn.content ds) ≡ a.image)
  unfolding handle_all serve
  image_collected a later w slash cloud not_segment fits some_image asks count =
      let stored = with_image lib a.now a.seen a.image a.interest w in
      let is = map (λ (b : Arrival lib). b.interest) later in
      let full =
        length-populate_store lib.ndn a.image
          (record (versioned lib a.now (lib.ndn.get_name a.interest) w) { store = [] }) some_image
          refl in
      elim (List-cases stored.store) [
        | inl e ↦ absurd (omega (arith, full, ap length e, count))
        | inr (d, ds, e) ↦
            let served =
              all-Served laws.ndn_laws a.interest is d ds stored e not_segment
                (fits d (ap (λ xs. get_elem? xs 0) e))
                (subst (λ v. InOrder lib.ndn v 1 is)
                  (sym (with_image-versioned lib a.now a.seen a.image a.interest w))
                  (asks-InOrder _ 1 later asks))
                (omega (
                  arith,
                  full,
                  ap length e,
                  count,
                  length-map (λ (b : Arrival lib). b.interest) later,
                )) in
            (
              served.final,
              served.packets_put,
              ap (λ r. r >>= handle_all lib later)
                    (image_dispatched laws a slash cloud w not_segment)
                  ∙ ap (λ f. process_segment_interest {ndn = lib.ndn} a.interest stored >>= f)
                      (fun_ext (handle_all-serve _ 1 later asks))
                  ∙ served.returned,
              served.answers
                  ∙ ap (λ out. out ++ map put served.packets_put)
                      (with_image-output lib a.now a.seen a.image a.interest w),
              ap flatten served.carried
                  ∙ image_stored laws.ndn_laws a.image
                      (record (versioned lib a.now (lib.ndn.get_name a.interest) w) { store = [] })
                      some_image refl,
            )
      ]
