-- ===== src/Libraries.antt =====
-- The libraries that both programs call, as one parameter.
use crowdsensing.Boost.{Boost, IsBoost}
use crowdsensing.Ndn.{Ndn, IsNdn}
use crowdsensing.Json.{Json, IsJson}

pub record Libraries : Type 1 where
  pub boost : Boost
  pub ndn : Ndn
  pub json : Json

pub record IsLawful (lib : Libraries) : Type 0 where
  pub boost_laws : IsBoost lib.boost
  pub ndn_laws : IsNdn lib.ndn
  pub json_laws : IsJson lib.json
