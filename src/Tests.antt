-- ===== src/Tests.antt =====
-- Runs of the definitions on concrete inputs, and the theorems at such inputs.
mod Ciphers
mod Tlv
mod Types
mod Loading
mod Commands
mod Apdu
mod Crypto
mod SecureChannelV2
mod SecureChannelV1
mod DerivationPath
mod Parsers
mod CommandSet
mod GlobalPlatform
mod Certificates
mod Runs
mod Life
mod Secrets
