-- ===== src/Edge.antt =====
-- The edge program, src/edge: it takes a client's Interest, asks the workers of each location, and
-- answers with what they found.
pub mod HashTable
pub mod SessionManager
pub mod Names
pub mod Encode
pub mod Producer
pub mod Execute
pub mod Main
pub mod Detection
pub mod Dnn
pub mod Watch
pub mod Run
