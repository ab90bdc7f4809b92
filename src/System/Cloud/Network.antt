-- ===== src/System/Cloud/Network.antt =====
-- The edge and its workers together, in cloud mode, with the network as the edge's detector.
use crowdsensing.Common.{List}
use crowdsensing.Libraries.{Libraries}
use crowdsensing.Edge.Names.Query.{Query}
use crowdsensing.Edge.Producer.State.{State}
use crowdsensing.OpenCv.{OpenCv}
use crowdsensing.Edge.Dnn.{Dnn}
