-- ===== src/Crypto.antt =====
-- The package crypto: padding, the encryption of the V1 channel, its MAC, and AES-CCM. The AES block
-- cipher and the modes CBC and CTR come from Go's standard library and are parameters.
pub mod Aes
pub mod Curve
pub mod Padding
pub mod Cbc
pub mod Ccm
