-- ===== src/Tests/Pools.antt =====
-- Three threads on two queues, of which one gets a handler, and the edge's own pool.
use crowdsensing.Common.{
  ℕ, ◌+◌, ◌*◌, ◌≤◌, ◌≡◌, ◌⊎◌, refl, [], ◌∷◌, some, ok, err, division_by_zero, All, get_elem?,
  length,
}
use crowdsensing.Asio.Pool.{
  Pool, PoolThread, Service, running, pool, post, clear, start_threads, thread_queue, Built, made,
  posted, Destroys, none_yet, further, works, runs_task, DestroyStep,
}
use crowdsensing.Asio.Pool.Destroy.{AllJoined, total}
use crowdsensing.Asio.Pool.Ends.{pool_destroyed}
use crowdsensing.Reference.{lib}
use crowdsensing.Reference.Asio.{asio, asio-IsAsio}
use crowdsensing.Edge.Producer.State.{producer}
use crowdsensing.Edge.Run.Pool.{thread_pool, post_task, post_task_fails}
use crowdsensing.Tests.Runs.{edge_asked, edge-Runs}

abbrev thread : ℕ → PoolThread
thread k = record { queue = k; phase = running }

abbrev pool_made : Pool
pool_made = record {
  services = record { works = 1; tasks = 0 } ∷ record { works = 1; tasks = 0 } ∷ [];
  threads = thread 0 ∷ thread 1 ∷ thread 0 ∷ [];
}

abbrev pool_posted : Pool
pool_posted = record pool_made {
  services = record { works = 1; tasks = 0 } ∷ record { works = 1; tasks = 1 } ∷ [];
}

-- The second thread has run the handler after the `work` objects were removed.
abbrev pool_after : Pool
pool_after = record pool_made {
  services = record { works = 0; tasks = 0 } ∷ record { works = 0; tasks = 0 } ∷ [];
}

pool_posted-Built : Built asio 3 2 pool_posted
unfolding pool start_threads thread_queue post
pool_posted-Built = posted 1 pool_posted (made pool_made refl) refl

first_step : Destroys asio (clear pool_posted) 1 pool_after
unfolding clear
first_step =
    further none_yet
      (works (runs_task 1 0 (thread 1) (record { works = 0; tasks = 1 }) refl refl refl refl))

pool_destroyed_example :
    All (λ (t : PoolThread). t.phase ≡ running) pool_posted.threads
    × (1 ≤ total (λ (v : Service). v.tasks) pool_posted.services + 2 * length pool_posted.threads)
    × (AllJoined pool_after ⊎ ((r : Pool) × DestroyStep asio pool_after r))
    × (AllJoined pool_after
        → All
            (λ (t : PoolThread).
              (v : Service) → get_elem? pool_after.services t.queue ≡ some v → v.tasks ≡ 0)
            pool_after.threads)
pool_destroyed_example =
    pool_destroyed asio asio-IsAsio 3 2 pool_posted pool_posted-Built 1 pool_after first_step

post_task_fails_example :
    (thread_pool (producer lib b'e') ≡ ok (record { services = []; threads = [] }))
    × (post_task {lib = lib} edge_asked.state pool_made ≡ err division_by_zero)
post_task_fails_example =
    post_task_fails {lib = lib} asio asio-IsAsio b'e' edge_asked pool_made edge-Runs
