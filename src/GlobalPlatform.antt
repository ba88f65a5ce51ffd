-- ===== src/GlobalPlatform.antt =====
-- The package globalplatform: the SCP02 session with a card, its commands, and loading a package.
pub mod Load
pub mod Des
pub mod Scp02
pub mod Session
pub mod Requests
pub mod Manager
