-- ===== src/Asio/Pool/Ends.antt =====
-- The destructors, whatever the order in which the threads get on.
use crowdsensing.Common.{
  ℕ, zero, suc, ◌+◌, ◌*◌, ◌<◌, ◌≤◌, ◌≡◌, ◌≢◌, ◌⊎◌, inl, inr, refl, sym, ap, ◌∙◌, subst, List, [],
  ◌∷◌, map, some, get_elem?, get_elem?-some, length, length-map, All, All-map, All-get_elem?, arith,
}
use crowdsensing.Asio.{Asio, IsAsio}
use crowdsensing.Asio.Pool.{
  Service, running, joined, PoolThread, Pool, clear, remove_work, runs_task, run_ends, Built, made,
  posted, stepped, DestroyStep, works, joins, Destroys, none_yet, further,
}
use crowdsensing.Asio.Pool.Alive.{RunsIn, IsAlive, set-IsAlive, post-IsAlive, pool-IsAlive}
use crowdsensing.Asio.Pool.Destroy.{
  total, weight, Phase-cases, IsFit, IsKept, AllJoined, measure, DestroyStep-IsKept,
  DestroyStep-measure,
}

total-running :
    (n : ℕ) (ts : List PoolThread)
    → All (RunsIn n) ts
    → total (λ (t : PoolThread). weight t.phase) ts ≡ 2 * length ts
total-running n [] h = refl
total-running n (t ∷ ts) ((below, runs), h) = omega (arith, ap weight runs, total-running n ts h)

total-remove_work :
    (vs : List Service)
    → total (λ (v : Service). v.tasks) (map remove_work vs) ≡ total (λ (v : Service). v.tasks) vs
total-remove_work [] = refl
total-remove_work (v ∷ vs) = omega (arith, total-remove_work vs)

All-remove_work :
    (vs : List Service)
    → All (λ (v : Service). v.works ≡ 1) vs
    → All (λ (v : Service). v.works ≡ 0) (map remove_work vs)
All-remove_work [] h = tt
All-remove_work (v ∷ vs) (one, h) = (omega (arith, one), All-remove_work vs h)

clear-IsKept : (p : Pool) → IsAlive p → IsKept 0 (clear p)
unfolding clear
clear-IsKept p h = record {
  same_work = All-remove_work p.services h.one_work;
  fit =
      All-map _ _
        (λ t (below, runs). record {
          in_range = rw (length-map remove_work p.services) below;
          quiet = inl runs;
        })
        p.threads h.running_all;
}

first_left :
    (ts : List PoolThread)
    → All (λ (t : PoolThread). t.phase ≡ joined) ts
      ⊎ ((i : ℕ) × (t : PoolThread) × (get_elem? ts i ≡ some t)
          × (t.phase ≢ joined)
          × ((j : ℕ) (u : PoolThread) → j < i → get_elem? ts j ≡ some u → u.phase ≡ joined))
first_left [] = inl tt
first_left (t ∷ ts) = elim (Phase-cases t.phase) [
  | inl runs ↦
      inr (0, t, refl, (λ e. let e' = sym runs ∙ e in cc), λ j u below e. absurd (omega arith))
  | inr (inl is_ended) ↦
      inr (0, t, refl, (λ e. let e' = sym is_ended ∙ e in cc), λ j u below e. absurd (omega arith))
  | inr (inr is_joined) ↦ elim (first_left ts) [
    | inl all_joined ↦ inl (is_joined, all_joined)
    | inr (i, u, found, left, before) ↦
        inr (suc i, u, found, left, joined_before t ts i is_joined before)
  ]
]
  where
    joined_before :
        (t : PoolThread) (ts : List PoolThread) (i : ℕ)
        → t.phase ≡ joined
        → ((j : ℕ) (u : PoolThread) → j < i → get_elem? ts j ≡ some u → u.phase ≡ joined)
        → (j : ℕ) (u : PoolThread) → j < suc i
        → get_elem? (t ∷ ts) j ≡ some u
        → u.phase ≡ joined
    joined_before t ts i is_joined before zero u below e =
        let same : t ≡ u = cc in subst (λ (x : PoolThread). x.phase ≡ joined) same is_joined
    joined_before t ts i is_joined before (suc j) u below e = before j u (omega arith) e

module _ (asio : Asio) (laws : IsAsio asio) where
  step_left :
      (p : Pool) (i : ℕ) (t : PoolThread)
      → IsKept 0 p
      → get_elem? p.threads i ≡ some t
      → t.phase ≡ running
      → (q : Pool) × DestroyStep asio p q
  step_left p i t h found runs =
      let f = All-get_elem? (IsFit p.services) p.threads i t h.fit found in
      let (v, at) = get_elem?-some p.services t.queue f.in_range in
      let idle = All-get_elem? (λ (v : Service). v.works ≡ 0) p.services t.queue v h.same_work at in
      elim (ℕ-cases v.tasks) [
        | inl none_waits ↦
            (_, works (run_ends i t v found runs at (rw (idle, none_waits) laws.idle-returns)))
        | inr (n, some_task) ↦ (_, works (runs_task i n t v found runs at some_task))
      ]
    where
      ℕ-cases : (n : ℕ) → (n ≡ 0) ⊎ ((m : ℕ) × (n ≡ suc m))
      ℕ-cases zero = inl refl
      ℕ-cases (suc m) = inr (m, refl)

  progress : (p : Pool) → IsKept 0 p → AllJoined p ⊎ ((q : Pool) × DestroyStep asio p q)
  progress p h = elim (first_left p.threads) [
    | inl all_joined ↦ inl all_joined
    | inr (i, t, found, left, before) ↦ elim (Phase-cases t.phase) [
      | inl runs ↦ inr (step_left p i t h found runs)
      | inr (inl is_ended) ↦ inr (_, joins i t before found is_ended)
      | inr (inr is_joined) ↦ absurd (left is_joined)
    ]
  ]

  Built-IsAlive :
      (num_thread num_queue : ℕ) {p : Pool} → Built asio num_thread num_queue p → IsAlive p
  Built-IsAlive a b (made p e) = pool-IsAlive a b p e
  Built-IsAlive a b (posted k {p} q h e) = post-IsAlive k p q (Built-IsAlive a b h) e
  Built-IsAlive a b (stepped {p} h (runs_task i n t v found runs at some_task)) =
      set-IsAlive p t.queue v n at (Built-IsAlive a b h)
  Built-IsAlive a b (stepped {p} h (run_ends i t v found runs at returns)) =
      let (idle, none_waits) = laws.returns-idle v.works v.tasks returns in
      let one =
        All-get_elem? (λ (v : Service). v.works ≡ 1) p.services t.queue v
          (Built-IsAlive a b h).one_work at in
      absurd (omega (arith, idle, one))

  Destroys-IsKept :
      {p q : Pool} {n : ℕ}
      → IsKept 0 p
      → Destroys asio p n q
      → IsKept 0 q × (n + measure q ≤ measure p)
  Destroys-IsKept h none_yet = (h, omega arith)
  Destroys-IsKept h (further {n} {q} {r} steps st) =
      let (g, less) = Destroys-IsKept h steps in
      (DestroyStep-IsKept asio laws g st, omega (arith, DestroyStep-measure asio laws st))

  -- Let handlers be posted to a pool that the constructor has made and its threads get on in any
  -- order. Then all threads still run. Once the destructor has removed the `work` objects, however
  -- the threads get on, there are no more steps than handlers that wait and two for each thread;
  -- as long as a thread is not joined some step can be made; and when all are joined, no handler
  -- waits at a queue that one of the threads runs.
  pub pool_destroyed :
      (num_thread num_queue : ℕ) (p : Pool)
      → Built asio num_thread num_queue p
      → (n : ℕ) (q : Pool) → Destroys asio (clear p) n q
      → All (λ (t : PoolThread). t.phase ≡ running) p.threads
        × (n ≤ total (λ (v : Service). v.tasks) p.services + 2 * length p.threads)
        × (AllJoined q ⊎ ((r : Pool) × DestroyStep asio q r))
        × (AllJoined q
            → All
                (λ (t : PoolThread).
                  (v : Service) → get_elem? q.services t.queue ≡ some v → v.tasks ≡ 0)
                q.threads)
  unfolding clear
  pool_destroyed num_thread num_queue p built n q destroys =
      let alive = Built-IsAlive num_thread num_queue built in
      let (h, bound) = Destroys-IsKept (clear-IsKept p alive) destroys in
      (
        All-map _ _ (λ t (below, runs). runs) p.threads alive.running_all,
        omega (
          arith,
          bound,
          total-remove_work p.services,
          total-running (length p.services) p.threads alive.running_all,
        ),
        progress q h,
        λ all_joined. idle_all q.services q.threads h.fit all_joined,
      )
    where
      idle_all :
          (vs : List Service) (ts : List PoolThread)
          → All (IsFit vs) ts
          → All (λ (t : PoolThread). t.phase ≡ joined) ts
          → All (λ (t : PoolThread). (v : Service) → get_elem? vs t.queue ≡ some v → v.tasks ≡ 0) ts
      idle_all vs [] h g = tt
      idle_all vs (t ∷ ts) (f, h) (is_joined, g) = (
        elim f.quiet [ inl runs ↦ absurd (let e = sym is_joined ∙ runs in cc) | inr idle ↦ idle ],
        idle_all vs ts h g,
      )
