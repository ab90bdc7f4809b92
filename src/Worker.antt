-- ===== src/Worker.antt =====
-- The worker program, src/worker: it looks for the targets in its camera's image, or hands the
-- image out in segments.
pub mod Names
pub mod Dnn
pub mod Encode
pub mod Decode
pub mod Segments
pub mod Handlers
pub mod Reply
pub mod Parameter
pub mod Detection
pub mod Image
pub mod Dispatch
pub mod Fetching
pub mod Watch
pub mod Run
