-- ===== src/DerivationPath.antt =====
-- The package derivationpath: BIP32 paths as text and as numbers.
pub mod Encoder
pub mod Decoder
pub mod KeyPath
