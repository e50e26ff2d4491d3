-- ===== src/Commons.antt =====
-- The code that the packages share, universal-login-commons/lib.
pub mod Ethers
pub mod Message
pub mod Signatures
pub mod Selection
pub mod Json
pub mod Signing
pub mod Debounce
pub mod Cosigning
pub mod Waiting
