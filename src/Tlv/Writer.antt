-- ===== src/Tlv/Writer.antt =====
-- BerTlvWriter of tlv/tlv.go: a byte buffer that grows at its end.
pub mod Output
use keycard_go.Base.{
  ℕ, zero, suc, ◌/◌, ◌+◌, Bool, [], ◌∷◌, ◌++◌, ltb, leb, ◌==◌, if◌then◌else◌, length, get_or, drop,
  ◌&&◌,
}
use keycard_go.Base.Bytes.{Bytes, uint8, uint32}
use keycard_go.Tlv.Length.{encode_ber_length}

pub record BerTlvWriter : Type 0 where
  pub buffer : Bytes

abbrev pub new_ber_tlv_writer : BerTlvWriter
new_ber_tlv_writer = record { buffer = [] }

abbrev push : Bytes → BerTlvWriter → BerTlvWriter
push bytes w = record { buffer = w.buffer ++ bytes }

pub write_num_length : ℕ → BerTlvWriter → BerTlvWriter
write_num_length count w = push (encode_ber_length count) w

pub write_tag : ℕ → BerTlvWriter → BerTlvWriter
write_tag tag w = push (tag ∷ []) w

pub write_primitive : ℕ → Bytes → BerTlvWriter → BerTlvWriter
unfolding write_num_length
write_primitive tag value w =
    push value (write_num_length (uint32 (length value)) (push (tag ∷ []) w))

pub write_constructed : ℕ → (BerTlvWriter → BerTlvWriter) → BerTlvWriter → BerTlvWriter
unfolding write_num_length
write_constructed tag content_fn w =
    let content = (content_fn new_ber_tlv_writer).buffer in
    push content (write_num_length (uint32 (length content)) (push (tag ∷ []) w))

pub write_boolean : ℕ → Bool → BerTlvWriter → BerTlvWriter
unfolding write_primitive
write_boolean tag value w =
    if value then write_primitive tag (0xff ∷ []) w else write_primitive tag (0x00 ∷ []) w

-- The four bytes of an int32, given by its bit pattern.
abbrev pub int32_bytes : ℕ → Bytes
int32_bytes value =
    uint8 (value / 0x1000000) ∷ uint8 (value / 0x10000) ∷ uint8 (value / 0x100) ∷ uint8 value ∷ []

-- `for start < 3 && bytes[start] == 0 { start++ }`, by the rounds left.
strip_loop : ℕ → Bytes → ℕ → ℕ
strip_loop zero bytes start = start
strip_loop (suc left) bytes start =
    let next = strip_loop left bytes (start + 1) in
    if ltb start 3 && get_or bytes start 0 == 0 then next else start

-- A negative number keeps its sign byte.
unfoldable pub integer_bytes : ℕ → Bytes
unfolding strip_loop
integer_bytes value =
    let start = if leb 0x80000000 value then 0 else strip_loop 3 (int32_bytes value) 0 in
    drop start (int32_bytes value)

pub write_integer : ℕ → ℕ → BerTlvWriter → BerTlvWriter
unfolding integer_bytes write_primitive
write_integer tag value w = write_primitive tag (integer_bytes value) w
