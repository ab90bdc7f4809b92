-- ===== src/Reference.antt =====
-- Small libraries that meet the laws, for the tests: they show that the laws can hold together.
pub mod Splitting
pub mod Json
pub mod Ndn
pub mod OpenCv
pub mod Asio
pub use Splitting.*
pub use Json.*
pub use Ndn.*
use crowdsensing.Libraries.{Libraries, IsLawful}

abbrev pub lib : Libraries
lib = record { boost = boost; ndn = ndn; json = json }

pub lib-IsLawful : IsLawful lib
lib-IsLawful = record { boost_laws = boost-IsBoost; ndn_laws = ndn-IsNdn; json_laws = json-IsJson }
