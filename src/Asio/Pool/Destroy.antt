-- ===== src/Asio/Pool/Destroy.antt =====
-- What each step of the threads and of the destructors does to the pool, and what is left to do.
use crowdsensing.Common.{
  ℕ, zero, suc, ◌+◌, ◌<◌, ◌≡◌, ◌⊎◌, inl, inr, refl, sym, ap, ◌∙◌, subst, List, [], ◌∷◌, some,
  get_elem?, set, length, length-set, All, All-map, All-get_elem?, arith,
}
use crowdsensing.Asio.{Asio, IsAsio}
use crowdsensing.Asio.Pool.{
  Service, Phase, running, ended, joined, PoolThread, Pool, ThreadStep, runs_task, run_ends,
  DestroyStep, works, joins,
}

pub All-set {ℓ κ} :
    {A : Type ℓ} (P : A → Type κ) (xs : List A) (i : ℕ) (x : A)
    → All P xs
    → P x
    → All P (set xs i x)
All-set P [] i x h px = tt
All-set P (y ∷ ys) zero x (py, h) px = (px, h)
All-set P (y ∷ ys) (suc i) x (py, h) px = (py, All-set P ys i x h px)

get_elem?-set_cases {ℓ} :
    {A : Type ℓ} (xs : List A) (k j : ℕ) (x y : A)
    → get_elem? (set xs k x) j ≡ some y
    → (k ≡ j) ⊎ (get_elem? xs j ≡ some y)
get_elem?-set_cases [] k j x y e = cc
get_elem?-set_cases (z ∷ zs) zero zero x y e = inl refl
get_elem?-set_cases (z ∷ zs) zero (suc j) x y e = inr e
get_elem?-set_cases (z ∷ zs) (suc k) zero x y e = inr e
get_elem?-set_cases (z ∷ zs) (suc k) (suc j) x y e = elim (get_elem?-set_cases zs k j x y e) [
  | inl same ↦ inl (ap suc same)
  | inr old ↦ inr old
]

-- The sum of some weights.
abbrev pub total {ℓ} : {A : Type ℓ} → (A → ℕ) → List A → ℕ
total f [] = 0
total f (x ∷ xs) = f x + total f xs

total-set {ℓ} :
    {A : Type ℓ} (f : A → ℕ) (xs : List A) (i : ℕ) (x y : A)
    → get_elem? xs i ≡ some x
    → total f (set xs i y) + f x ≡ total f xs + f y
total-set f [] i x y e = cc
total-set f (z ∷ zs) zero x y e = let same : z ≡ x = cc in omega (arith, ap f same)
total-set f (z ∷ zs) (suc i) x y e = omega (arith, total-set f zs i x y e)

-- What is left to do: each handler counts once, each thread for its end and for its `join`.
abbrev pub weight : Phase → ℕ
weight running = 2
weight ended = 1
weight joined = 0

abbrev pub measure : Pool → ℕ
measure p =
    total (λ (v : Service). v.tasks) p.services
    + total (λ (t : PoolThread). weight t.phase) p.threads

pub Phase-cases : (f : Phase) → (f ≡ running) ⊎ ((f ≡ ended) ⊎ (f ≡ joined))
Phase-cases running = inl refl
Phase-cases ended = inr (inl refl)
Phase-cases joined = inr (inr refl)

-- The service that the thread runs exists, and if the thread has ended, no handler waits there.
pub record IsFit (vs : List Service) (t : PoolThread) : Type 0 where
  pub in_range : t.queue < length vs
  pub quiet : (t.phase ≡ running) ⊎ ((v : Service) → get_elem? vs t.queue ≡ some v → v.tasks ≡ 0)

pub record IsKept (n : ℕ) (p : Pool) : Type 0 where
  pub same_work : All (λ (v : Service). v.works ≡ n) p.services
  pub fit : All (IsFit p.services) p.threads

abbrev pub AllJoined : Pool → Type 0
AllJoined p = All (λ (t : PoolThread). t.phase ≡ joined) p.threads

module _ (asio : Asio) (laws : IsAsio asio) where
  run_task-IsFit :
      (vs : List Service) (v w : Service) (k n : ℕ) (t : PoolThread)
      → get_elem? vs k ≡ some v
      → v.tasks ≡ suc n
      → IsFit vs t
      → IsFit (set vs k w) t
  run_task-IsFit vs v w k n t found some_task h = record {
    in_range = rw (length-set vs k w) h.in_range;
    quiet = elim h.quiet [
      | inl runs ↦ inl runs
      | inr idle ↦ inr (λ u e. elim (get_elem?-set_cases vs k t.queue w u e) [
        | inl same ↦
            let none_waits = idle v (subst (λ j. get_elem? vs j ≡ some v) same found) in
            absurd (omega arith)
        | inr old ↦ idle u old
      ])
    ];
  }

  ThreadStep-IsKept : (n : ℕ) {p q : Pool} → IsKept n p → ThreadStep asio p q → IsKept n q
  ThreadStep-IsKept n {p} h (runs_task i m t v found runs at some_task) = record {
    same_work =
        All-set (λ (v : Service). v.works ≡ n) p.services t.queue _ h.same_work
          (All-get_elem? (λ (v : Service). v.works ≡ n) p.services t.queue v h.same_work at);
    fit =
        All-map _ _ (λ u f. run_task-IsFit p.services v _ t.queue m u at some_task f) p.threads
          h.fit;
  }
  ThreadStep-IsKept n {p} h (run_ends i t v found runs at returns) =
      let (idle, none_waits) = laws.returns-idle v.works v.tasks returns in
      let f = All-get_elem? (IsFit p.services) p.threads i t h.fit found in
      record {
        same_work = h.same_work;
        fit = All-set (IsFit p.services) p.threads i _ h.fit (record {
          in_range = f.in_range;
          quiet =
              inr (λ u e. let same : u ≡ v = cc in ap (λ (x : Service). x.tasks) same ∙ none_waits);
        });
      }

  pub DestroyStep-IsKept : {p q : Pool} → IsKept 0 p → DestroyStep asio p q → IsKept 0 q
  DestroyStep-IsKept h (works st) = ThreadStep-IsKept 0 h st
  DestroyStep-IsKept {p} h (joins i t before found is_ended) =
      let f = All-get_elem? (IsFit p.services) p.threads i t h.fit found in
      record {
        same_work = h.same_work;
        fit = All-set (IsFit p.services) p.threads i _ h.fit (record {
          in_range = f.in_range;
          quiet = elim f.quiet [
            | inl runs ↦ absurd (let e = sym is_ended ∙ runs in cc)
            | inr idle ↦ inr idle
          ];
        });
      }

  pub DestroyStep-measure : {p q : Pool} → DestroyStep asio p q → measure q < measure p
  DestroyStep-measure {p} (works (runs_task i m t v found runs at some_task)) = omega (
    arith,
    total-set (λ (v : Service). v.tasks) p.services t.queue v (record v { tasks = m }) at,
    some_task,
  )
  DestroyStep-measure {p} (works (run_ends i t v found runs at returns)) = omega (
    arith,
    total-set (λ (t : PoolThread). weight t.phase) p.threads i t (record t { phase = ended }) found,
    ap weight runs,
  )
  DestroyStep-measure {p} (joins i t before found is_ended) = omega (
    arith,
    total-set (λ (t : PoolThread). weight t.phase) p.threads i t (record t { phase = joined })
        found,
    ap weight is_ended,
  )
