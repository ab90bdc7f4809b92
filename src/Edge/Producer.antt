-- ===== src/Edge/Producer.antt =====
-- src/edge/src/producer.cpp and producer.hpp: the handlers of the edge program.
pub mod State
pub mod Replies
pub mod Requests
pub mod Queues
pub mod Collect
pub mod Answer
pub mod Session
pub mod Timer
pub mod Race
pub mod Counts
pub mod Once
pub mod Reach
pub mod Rule
pub mod Signature
pub mod Drain
pub mod Armed
pub mod Malformed
