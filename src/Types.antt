-- ===== src/Types.antt =====
-- The package types: the data that the applet stores and returns.
pub mod Metadata
pub mod ApplicationInfo
pub mod ApplicationStatus
pub mod Keys
pub mod CardStatus
pub mod Pairing
pub mod Signature
pub mod Certificate
pub mod Mnemonic
pub mod Seeds
