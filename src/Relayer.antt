-- ===== src/Relayer.antt =====
-- The relayer, universal-login-relayer/lib.
pub mod Errors
pub mod Database
pub mod PendingStore
pub mod QueueStore
pub mod KeyOrder
pub mod PendingMessages
pub mod Authorisation
pub mod Calls
pub mod Execution
pub mod Queue
pub mod Handler
pub mod Deployment
pub mod Creating
pub mod Http
pub mod Granting
