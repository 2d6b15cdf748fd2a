-- ===== src/Runtime.antt =====
-- src/runtime.rs: the runtime's cache of components, and the preparation and control of
-- invocations.
pub mod Invocation
pub mod Input
pub mod Running
pub mod Detect
pub mod Compile
pub mod Inner
pub mod Prepare
pub mod Memory
