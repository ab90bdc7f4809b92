-- ===== src/Edge/Run/Returns.antt =====
-- Cloud mode: how the callbacks of the fetchers and of the timer service end, whatever has happened
-- before.
use crowdsensing.Asio.{Asio}
use crowdsensing.Libraries.{Libraries}
use crowdsensing.Edge.Producer.State.{State}
use crowdsensing.Edge.Main as Main
use crowdsensing.Edge.Run.Allowed.{Allowed}
