-- ===== src/Worker/Segments/Fetch.antt =====
-- A fetcher that asks for every segment in order.
use crowdsensing.Common.{
  get_elem?-some, get_elem?-map, ℕ, suc, ◌+◌, ◌≤◌, ◌<◌, ◌≡◌, refl, sym, ap, ◌∙◌, List, [], ◌∷◌,
  ◌++◌, map, Bytes, Result, ok, arith, length, length-map, length-set, take, drop, take_all, set,
  append_assoc, append-nil, ◌>>=◌,
}
use mathlib.Core.Path.{ap₂}
use crowdsensing.Ndn.{Ndn, IsNdn}
use crowdsensing.Worker.Segments.{
  Worker, put, process_segment_interest, populate_store, max_segment_size,
}
use crowdsensing.Worker.Segments.Cut.{
  flatten, image_stored, segment_count, populate_store_lem, length-packets,
}
use crowdsensing.Worker.Segments.Serve.{process_segment_found, contents-set, drop_at}

-- The Interests name the segments `k`, `k + 1`, … of a version, in order.
abbrev pub InOrder : (ndn : Ndn) → ndn.Name → ℕ → List ndn.Interest → Type 0
InOrder ndn v k [] = Unit
InOrder ndn v k (i ∷ is) = (ndn.get_name i ≡ ndn.append_segment v k) × InOrder ndn v (k + 1) is

-- Interests that are served one after the other.
unfoldable pub serve : (ndn : Ndn) → List ndn.Interest → Worker ndn → Result (Worker ndn)
serve ndn [] w = ok w
serve ndn (i ∷ is) w = process_segment_interest {ndn = ndn} i w >>= serve ndn is

-- The end of a run: it returned, and put these packets.
pub record Served (ndn : Ndn) (is : List ndn.Interest) (w : Worker ndn) (bytes : List Bytes)
    : Type 0 where
  pub final : Worker ndn
  pub packets_put : List ndn.Data
  pub returned : serve ndn is w ≡ ok final
  pub answers : final.output ≡ w.output ++ map put packets_put
  pub carried : map ndn.content packets_put ≡ bytes

-- Interests for the segments from `k` on are answered one by one with the contents that the store
-- holds from there.
pub serve-Served :
    (ndn : Ndn)
    → IsNdn ndn
    → (is : List ndn.Interest) (k : ℕ) (w : Worker ndn) → InOrder ndn w.versioned_prefix k is
    → k + length is ≤ length w.store
    → Served ndn is w (take (length is) (drop k (map ndn.content w.store)))
unfolding serve
serve-Served ndn laws [] k w order room = record {
  final = w;
  packets_put = [];
  returned = refl;
  answers = sym (append-nil w.output);
  carried = refl;
}
serve-Served ndn laws (i ∷ is) k w order room =
    let (d, found) = get_elem?-some w.store k (omega arith) in
    let next : Worker ndn = record w {
      store = set w.store k (ndn.sign d);
      output = w.output ++ put (ndn.sign d) ∷ [];
    } in
    let rest =
      serve-Served ndn laws is (k + 1) next order.1
        (omega (arith, length-set w.store k (ndn.sign d))) in
    record {
      final = rest.final;
      packets_put = ndn.sign d ∷ rest.packets_put;
      returned = rw (process_segment_found laws i k d w order.0 found) rest.returned;
      answers =
          rest.answers ∙ append_assoc w.output (put (ndn.sign d) ∷ []) (map put rest.packets_put);
      carried =
          ap₂ ◌∷◌ (laws.content-sign d) (
            rest.carried
            ∙ ap (λ cs. take (length is) (drop (k + 1) cs)) (contents-set laws w.store k d found))
          ∙ sym (
              ap (take (suc (length is))) (
                drop_at (map ndn.content w.store) k (ndn.content d)
                  (get_elem?-map ndn.content w.store k d found)));
    }

pub length-populate_store :
    (ndn : Ndn) (image : Bytes) (w : Worker ndn)
    → 0 < length image
    → w.store ≡ []
    → length (populate_store image w).store ≡ segment_count (length image)
length-populate_store ndn image w h e =
    ap (λ (t : Worker ndn). length t.store) (populate_store_lem image w h e)
    ∙ length-map _ _
    ∙ length-packets ndn max_segment_size image w.versioned_prefix 0 (segment_count (length image))

-- After an image that is not empty was put into an empty store, Interests for all of its segments
-- in order are all answered, and the contents of the answers, put together, are the image.
pub image_fetched :
    (ndn : Ndn)
    → IsNdn ndn
    → (image : Bytes) (w : Worker ndn) (is : List ndn.Interest) → 0 < length image
    → w.store ≡ []
    → InOrder ndn w.versioned_prefix 0 is
    → length is ≡ segment_count (length image)
    → (bytes : List Bytes) × Served ndn is (populate_store image w) bytes × (flatten bytes ≡ image)
unfolding populate_store
image_fetched ndn laws image w is h e order count =
    let stored = populate_store image w in
    let bytes = map ndn.content stored.store in
    let full = length-populate_store ndn image w h e in
    (
      take (length is) bytes,
      serve-Served ndn laws is 0 stored order (omega (arith, full, count)),
      ap (λ n. flatten (take n bytes))
            (count ∙ sym full ∙ sym (length-map ndn.content stored.store))
          ∙ ap flatten (take_all bytes)
          ∙ image_stored laws image w h e,
    )
