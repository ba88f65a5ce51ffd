-- ===== src/Apdu.antt =====
-- The package apdu: commands, responses, and the check of a status word.
pub mod Command
pub mod Response
pub mod NormalChannel
