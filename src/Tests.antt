-- ===== src/Tests.antt =====
-- Concrete inputs, and what the theorems state of them.
pub mod Samples
mod Shared
mod Messages
mod Running
mod Sessions
mod Deploying
mod Observing
mod Client
mod Watching
mod Routes
mod Lifecycle
mod Example
mod Contracts
mod Ops
