-- ===== src/Example.antt =====
-- The services of the example application, universal-login-example/src/services.
pub mod History
pub mod EnsNames
pub mod Wallets
pub mod Backups
