-- ===== src/Asio/Pool/Alive.antt =====
-- The pool before the destructor is called.
use native.Mathlib.Nat.{mod-lt}
use crowdsensing.Common.{
  division_by_zero, ◌%◌, ℕ, zero, suc, ◌+◌, ◌%◌, ◌<◌, ◌≡◌, ◌⊎◌, inl, inr, refl, sym, ap, ◌∙◌, subst,
  List, [], ◌∷◌, map, some, ok, err, get_elem?, set, length, length-set, All, All-get_elem?, arith,
  bind-ok, Option-cases,
}
use crowdsensing.Asio.Pool.{
  services, add_work, Service, running, PoolThread, Pool, pool, post, start_threads, thread_queue,
}
use crowdsensing.Asio.Pool.Destroy.{All-set}

-- The service exists and its thread runs.
abbrev pub RunsIn : ℕ → PoolThread → Type 0
RunsIn n t = (t.queue < n) × (t.phase ≡ running)

pub record IsAlive (p : Pool) : Type 0 where
  pub one_work : All (λ (v : Service). v.works ≡ 1) p.services
  pub running_all : All (RunsIn (length p.services)) p.threads

thread_queue-lt : (q n k : ℕ) → thread_queue q n ≡ ok k → k < q
unfolding thread_queue
thread_queue-lt q n k e = ground arith

start_threads-RunsIn :
    (q n m : ℕ) (ts : List PoolThread) → start_threads q n m ≡ ok ts → All (RunsIn q) ts
unfolding start_threads
start_threads-RunsIn q n zero [] e = tt
start_threads-RunsIn q n zero (t ∷ ts) e = cc
start_threads-RunsIn q n (suc m) ts e =
    let (k, first, e1) = bind-ok (thread_queue q n) _ ts e in
    let (us, later, e2) = bind-ok (start_threads q (n + 1) m) _ ts e1 in
    let same : (record { queue = k; phase = running }) ∷ us ≡ ts = cc in
    subst (All (RunsIn q)) same
      ((thread_queue-lt q n k first, refl), start_threads-RunsIn q (n + 1) m us later)

services-works : (n : ℕ) → All (λ (v : Service). v.works ≡ 1) (map add_work (services n))
services-works zero = tt
services-works (suc n) = (refl, services-works n)

pub length-services : (n : ℕ) → length (map add_work (services n)) ≡ n
length-services zero = refl
length-services (suc n) = ap suc (length-services n)

pub pool-IsAlive :
    (num_thread num_queue : ℕ) (p : Pool) → pool num_thread num_queue ≡ ok p → IsAlive p
unfolding pool
pool-IsAlive num_thread num_queue p e =
    let (ts, started, e1) = bind-ok (start_threads num_queue 0 num_thread) _ p e in
    let same : (record { services = map add_work (services num_queue); threads = ts }) ≡ p = cc in
    subst IsAlive same (record {
      one_work = services-works num_queue;
      running_all =
          rw (length-services num_queue) (start_threads-RunsIn num_queue 0 num_thread ts started);
    })

pub set-IsAlive :
    (p : Pool) (k : ℕ) (v : Service) (tasks : ℕ)
    → get_elem? p.services k ≡ some v
    → IsAlive p
    → IsAlive (record p { services = set p.services k (record v { tasks = tasks }) })
set-IsAlive p k v tasks at h = record {
  one_work =
      All-set (λ (v : Service). v.works ≡ 1) p.services k _ h.one_work
        (All-get_elem? (λ (v : Service). v.works ≡ 1) p.services k v h.one_work at);
  running_all =
      subst (λ n. All (RunsIn n) p.threads) (sym (length-set p.services k _)) h.running_all;
}

pub post-IsAlive : (k : ℕ) (p q : Pool) → IsAlive p → post k p ≡ ok q → IsAlive q
unfolding post
post-IsAlive k p q h e = elim (Option-cases (get_elem? p.services k)) [
  | inl out ↦ let e' = rw (out, post) at e in cc
  | inr (v, found) ↦
      let e' = rw (found, post) at e in
      let same : record p { services = set p.services k (record v { tasks = v.tasks + 1 }) } ≡ q =
        cc in
      subst IsAlive same (set-IsAlive p k v (v.tasks + 1) found h)
]

-- Thread number `n + i` of a pool.
abbrev in_turn : ℕ → ℕ → PoolThread
in_turn q n = record { queue = n % q; phase = running }

in_turn_cons :
    (q n m : ℕ) (ts : List PoolThread)
    → ((i : ℕ) → i < m → get_elem? ts i ≡ some (in_turn q (n + 1 + i)))
    → (i : ℕ) → i < suc m
    → get_elem? (in_turn q n ∷ ts) i ≡ some (in_turn q (n + i))
in_turn_cons q n m ts later zero h = ap (λ k. some (in_turn q k)) {x = n} {y = n + 0} (omega arith)
in_turn_cons q n m ts later (suc i) h =
    later i (omega arith)
    ∙ ap (λ k. some (in_turn q k)) {x = n + 1 + i} {y = n + suc i} (omega arith)

-- The threads from number `n` on run the queues in turn.
start_threads-in_turn :
    (q n m : ℕ)
    → 0 < q
    → (ts : List PoolThread) × (start_threads q n m ≡ ok ts)
      × (length ts ≡ m)
      × ((i : ℕ) → i < m → get_elem? ts i ≡ some (in_turn q (n + i)))
unfolding start_threads thread_queue
start_threads-in_turn q n zero some_queue = ([], refl, refl, λ i h. absurd (omega arith))
start_threads-in_turn q n (suc m) some_queue =
    let (ts, later, count, turn) = start_threads-in_turn q (n + 1) m some_queue in
    let below = mod-lt n some_queue in
    let first : thread_queue q n ≡ ok (n % q) = ground arith in
    (in_turn q n ∷ ts, rw (first, later) refl, ap suc count, in_turn_cons q n m ts turn)

-- With a queue or more the constructors make as many services and threads as they are told to, and
-- thread number `i` runs the service of queue `i % m_num_queue`, which exists. Without a queue a
-- thread divides by zero, and without either there is nothing.
pub pool_in_turn :
    (num_thread num_queue : ℕ)
    → ((0 < num_queue)
        × (p : Pool) × (pool num_thread num_queue ≡ ok p)
        × (length p.services ≡ num_queue)
        × (length p.threads ≡ num_thread)
        × ((i : ℕ)
            → i < num_thread
            → (i % num_queue < length p.services)
              × (get_elem? p.threads i ≡ some (record { queue = i % num_queue; phase = running }))))
      ⊎ (((num_queue ≡ 0) × (0 < num_thread) × (pool num_thread num_queue ≡ err division_by_zero))
          ⊎ ((num_queue ≡ 0)
              × (num_thread ≡ 0)
              × (pool num_thread num_queue ≡ ok (record { services = []; threads = [] }))))
unfolding pool start_threads thread_queue
pool_in_turn zero zero = inr (inr (refl, refl, refl))
pool_in_turn (suc a) zero = inr (inl (refl, omega arith, refl))
pool_in_turn a (suc q) =
    let (ts, started, count, turn) = start_threads-in_turn (suc q) 0 a (omega arith) in
    let made = length-services (suc q) in
    inl (
      omega arith,
      record { services = map add_work (services (suc q)); threads = ts },
      rw started refl,
      made,
      count,
      λ i h. (
        rw made (mod-lt i (omega arith)),
        turn i h ∙ ap (λ k. some (in_turn (suc q) k)) {x = 0 + i} {y = i} (omega arith),
      ),
    )
