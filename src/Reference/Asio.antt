-- ===== src/Reference/Asio.antt =====
-- A service whose `run` returns when nothing is left to do.
use crowdsensing.Common.{refl, ◌&&◌, ◌==◌, arith}
use crowdsensing.Asio.{Asio, IsAsio}

abbrev pub asio : Asio
asio = record { run_returns = λ works handlers. (works == 0) && (handlers == 0) }

pub asio-IsAsio : IsAsio asio
asio-IsAsio = record {
  returns-idle = λ works handlers e. (ground (arith, e), ground (arith, e));
  idle-returns = refl;
}
