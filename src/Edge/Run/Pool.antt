-- ===== src/Edge/Run/Pool.antt =====
-- src/edge/src/producer.cpp, the pool of threads of the constructor, and `post_task`.
use crowdsensing.Common.{ℕ, ◌≡◌, refl, [], Result, ok, err, division_by_zero, ◌>>=◌}
use crowdsensing.Asio.{Asio, IsAsio}
use crowdsensing.Asio.Pool.{Pool, pool, post, start_threads}
use crowdsensing.Libraries.{Libraries}
use crowdsensing.Edge.Producer.State.{State, producer, io_service}
use crowdsensing.Edge.Run.{Program, Runs}
use crowdsensing.Edge.Run.Serving.{Runs-no_queue}

module _ {lib : Libraries} where
  -- The loops of the constructor.
  abbrev pub thread_pool : State lib → Result Pool
  thread_pool s = pool s.num_thread s.num_queue

  unfoldable pub post_task : State lib → Pool → Result (State lib × Pool)
  post_task s p = do (k, s') ← io_service s; p' ← post k p; ok (s', p')

  -- The constructor makes neither a service nor a thread, and as long as the program runs, a task
  -- that is posted ends at a division by zero, whatever the pool.
  pub post_task_fails :
      (asio : Asio)
      → IsAsio asio
      → (mode : ℕ) (p : Program lib) (threads : Pool) → Runs asio mode p
      → (thread_pool (producer lib mode) ≡ ok (record { services = []; threads = [] }))
        × (post_task p.state threads ≡ err division_by_zero)
  unfolding post_task io_service producer pool start_threads
  post_task_fails asio laws mode p threads r = (refl, rw (Runs-no_queue asio laws mode p r) refl)
