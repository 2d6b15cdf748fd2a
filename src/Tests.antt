-- ===== src/Tests.antt =====
-- The theorems at concrete inputs: small stand-ins for the crates, and the witnesses.
pub mod Invocation
pub mod Http
pub mod Crates
pub mod DiskCache
pub mod Runtime
pub mod Capture
pub mod Checkpoint
pub mod Output
pub mod Environment
pub mod Worker
pub mod WorkerCapture
