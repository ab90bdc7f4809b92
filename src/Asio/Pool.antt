-- ===== src/Asio/Pool.antt =====
-- The pools of threads of src/edge/src/producer.cpp and src/worker/src/worker.cpp, whose constructors
-- and destructors are the same in this respect: an `io_service` for each queue, a `work` object for
-- each of them, and threads that run the services in turn.
pub mod Destroy
pub mod Alive
pub mod Ends
use crowdsensing.Common.{
  ℕ, zero, suc, ◌+◌, ◌-◌, ◌%◌, ◌<◌, ◌≡◌, true, List, [], ◌∷◌, map, none, some, Result, ok, err,
  out_of_range, division_by_zero, get_elem?, set, ltb, ◌==◌, if◌then◌else◌, ◌>>=◌,
}
use crowdsensing.Asio.{Asio}

-- An `io_service`: the `work` objects that are alive, and the handlers that wait.
pub record Service : Type 0 where
  pub works : ℕ
  pub tasks : ℕ

pub data Phase : Type 0 where
  running ended joined : Phase

-- A thread of the pool, which runs one service.
pub record PoolThread : Type 0 where
  pub queue : ℕ
  pub phase : Phase

pub record Pool : Type 0 where
  pub services : List Service
  pub threads : List PoolThread

-- `m_io_service_pool(m_num_queue)`
abbrev pub services : ℕ → List Service
services zero = []
services (suc n) = record { works = 0; tasks = 0 } ∷ services n

-- `m_worker_pool.emplace_back(ios)`, and `m_worker_pool.clear()`.
abbrev pub add_work : Service → Service
add_work v = record v { works = v.works + 1 }

abbrev pub remove_work : Service → Service
remove_work v = record v { works = v.works - 1 }

-- `m_io_service_pool.at(n % m_num_queue)`
unfoldable pub thread_queue : ℕ → ℕ → Result ℕ
thread_queue num_queue n =
    if num_queue == 0
    then err division_by_zero
    else (if ltb (n % num_queue) num_queue then ok (n % num_queue) else err out_of_range)

-- The threads from number `n` on.
unfoldable pub start_threads : ℕ → ℕ → ℕ → Result (List PoolThread)
unfolding thread_queue
start_threads num_queue n zero = ok []
start_threads num_queue n (suc more) = do
  k ← thread_queue num_queue n
  ts ← start_threads num_queue (n + 1) more
  ok (record { queue = k; phase = running } ∷ ts)

-- The two loops of the constructors.
unfoldable pub pool : ℕ → ℕ → Result Pool
unfolding start_threads
pool num_thread num_queue = start_threads num_queue 0 num_thread >>= λ ts.
    ok (record { services = map add_work (services num_queue); threads = ts })

-- `post` on the service of a queue.
unfoldable pub post : ℕ → Pool → Result Pool
post k p = elim (get_elem? p.services k) [
  | none ↦ err out_of_range
  | some v ↦ ok (record p { services = set p.services k (record v { tasks = v.tasks + 1 }) })
]

-- The first statement of the destructors.
unfoldable pub clear : Pool → Pool
clear p = record p { services = map remove_work p.services }

module _ (asio : Asio) where
  -- What the threads do by themselves: one runs a handler of its service, or the service's `run`
  -- returns.
  pub data ThreadStep (p : Pool) : Pool → Type 0 where
    runs_task :
        (i n : ℕ) (t : PoolThread) (v : Service)
        → get_elem? p.threads i ≡ some t
        → t.phase ≡ running
        → get_elem? p.services t.queue ≡ some v
        → v.tasks ≡ suc n
        → ThreadStep p (record p { services = set p.services t.queue (record v { tasks = n }) })
    run_ends :
        (i : ℕ) (t : PoolThread) (v : Service)
        → get_elem? p.threads i ≡ some t
        → t.phase ≡ running
        → get_elem? p.services t.queue ≡ some v
        → asio.run_returns v.works v.tasks ≡ true
        → ThreadStep p (record p { threads = set p.threads i (record t { phase = ended }) })

  -- A pool that the constructor has made, after some posts and some steps of its threads.
  pub data Built (num_thread num_queue : ℕ) : Pool → Type 0 where
    made : (p : Pool) → pool num_thread num_queue ≡ ok p → Built num_thread num_queue p
    posted :
        (k : ℕ) {p : Pool} (q : Pool)
        → Built num_thread num_queue p
        → post k p ≡ ok q
        → Built num_thread num_queue q
    stepped :
        {p q : Pool} → Built num_thread num_queue p → ThreadStep p q → Built num_thread num_queue q

  -- While the destructor's loop runs: a step of a thread, or the next `join` of a thread that has
  -- ended.
  pub data DestroyStep (p : Pool) : Pool → Type 0 where
    works : {q : Pool} → ThreadStep p q → DestroyStep p q
    joins :
        (i : ℕ) (t : PoolThread)
        → ((j : ℕ) (u : PoolThread) → j < i → get_elem? p.threads j ≡ some u → u.phase ≡ joined)
        → get_elem? p.threads i ≡ some t
        → t.phase ≡ ended
        → DestroyStep p (record p { threads = set p.threads i (record t { phase = joined }) })

  -- That many steps.
  pub data Destroys (p : Pool) : ℕ → Pool → Type 0 where
    none_yet : Destroys p 0 p
    further : {n : ℕ} {q r : Pool} → Destroys p n q → DestroyStep q r → Destroys p (suc n) r
