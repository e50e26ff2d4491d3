-- ===== src/Sdk.antt =====
-- The SDK, universal-login-sdk/lib.
pub mod Errors
pub mod RelayerApi
pub mod Retry
pub mod DeploymentObserver
pub mod Runner
pub mod Values
pub mod Client
pub mod Observers
pub mod BlockchainObserver
pub mod BalanceObserver
pub mod FutureWallets
pub mod Signer
