-- ===== src/Asio.antt =====
-- `boost::asio::io_service::run`, as far as the programs' threads depend on it. Boost is not part of
-- the repository: when `run` may return is a parameter, with its documented behaviour as laws.
pub mod Pool
use crowdsensing.Common.{ℕ, ◌≡◌, Bool, true}

pub record Asio : Type 0 where
  -- Whether `run` may return while that many `work` objects of the service are alive and that many
  -- of its handlers wait.
  pub run_returns : ℕ → ℕ → Bool

-- `run` blocks until all work has finished and no handlers are left, and then it returns. The
-- sources stop no service.
pub record IsAsio (a : Asio) : Type 0 where
  pub returns-idle :
      (works handlers : ℕ) → a.run_returns works handlers ≡ true → (works ≡ 0) × (handlers ≡ 0)
  pub idle-returns : a.run_returns 0 0 ≡ true
