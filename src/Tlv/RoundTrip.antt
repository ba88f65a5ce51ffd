-- ===== src/Tlv/RoundTrip.antt =====
-- The reader on what the writer wrote.
use keycard_go.Base.{ℕ, ◌<◌, ◌≡◌, ◌++◌, append_assoc, length, drop-append, length-append, ok}
use keycard_go.Base.Bytes.{Bytes}
use keycard_go.Tlv.Reader.{BerTlvReader, read_primitive}
use keycard_go.Tlv.Reader.Steps.{read_primitive_lem}
use keycard_go.Tlv.Writer.{BerTlvWriter, write_primitive}
use keycard_go.Tlv.Writer.Output.{primitive, write_primitive_lem}

-- A reader that starts where a writer stood when it wrote a value under a tag returns the value and
-- stops where the writer stopped, whatever was written before and whatever follows, for every value
-- shorter than 2 ^ 32 bytes.
pub read_primitive-write_primitive :
    (w : BerTlvWriter) (tag : ℕ) (value rest : Bytes)
    → length value < 0x100000000
    → let buffer = (write_primitive tag value w).buffer in
      read_primitive tag (record { buffer = buffer ++ rest; pos = length w.buffer })
      ≡ (ok value, record { buffer = buffer ++ rest; pos = length buffer })
read_primitive-write_primitive w tag value rest h =
    let wrote = write_primitive_lem w tag value h in
    let seen = append_assoc w.buffer (primitive tag value) rest in
    let r : BerTlvReader = record {
      buffer = w.buffer ++ (primitive tag value ++ rest);
      pos = length w.buffer;
    } in
    rw (wrote, seen, length-append w.buffer (primitive tag value))
      (read_primitive_lem r tag value rest h (drop-append w.buffer (primitive tag value ++ rest)))
