-- ===== src/Constants.antt =====
-- constants.go.
pub mod Instructions
pub mod Parameters
