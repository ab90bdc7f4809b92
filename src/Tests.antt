-- ===== src/Tests.antt =====
-- The theorems at concrete inputs, with the small libraries of Reference.antt.
pub mod Setup
pub mod EdgeProducer
pub mod EdgeOther
pub mod EdgeReach
pub mod WorkerNames
pub mod WorkerSegments
pub mod System
pub mod WorkerCloud
pub mod Detection
pub mod WorkerLimits
pub mod EdgeDrain
pub mod Cloud
pub mod CloudNetwork
pub mod SystemNetwork
pub mod Watch
pub mod Runs
pub mod Pools
pub mod WorkerMain
pub mod EdgeRace
