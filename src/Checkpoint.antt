-- ===== src/Checkpoint.antt =====
-- src/checkpoint.rs: the authenticated checkpoint artifact.
pub mod Journal
pub mod Binding
pub mod Metadata
pub mod Codec
pub mod Seal
pub mod Writing
pub mod Verify
pub mod Reading
pub mod RoundTrip
pub mod Accepted
