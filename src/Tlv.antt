-- ===== src/Tlv.antt =====
-- tlv/tlv.go: the tags, the BER length codec, the reader and the writer.
mod Tags
mod BigEndian
pub mod Length
pub mod Reader
pub mod Writer
pub mod RoundTrip
pub mod Integers
pub use Tags.*
