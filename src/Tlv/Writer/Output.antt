-- ===== src/Tlv/Writer/Output.antt =====
-- What each writing method appends.
use keycard_go.Base.{ℕ, ◌<◌, ◌≤◌, ◌+◌, ◌≡◌, ◌∷◌, ◌++◌, append_assoc, arith, length, length-append}
use keycard_go.Base.Bytes.{Bytes, uint32}
use keycard_go.Tlv.Length.{encode_ber_length}
use keycard_go.Tlv.Writer.{BerTlvWriter, new_ber_tlv_writer, write_primitive, write_constructed}

-- The bytes of one TLV.
abbrev pub primitive : ℕ → Bytes → Bytes
primitive tag value = tag ∷ encode_ber_length (length value) ++ value

few_length_bytes : (n : ℕ) → length (encode_ber_length n) ≤ 5
unfolding encode_ber_length
few_length_bytes n = ground arith

-- A TLV is at most six bytes longer than its value.
pub primitive_le : (tag : ℕ) (value : Bytes) → length (primitive tag value) ≤ length value + 6
primitive_le tag value =
    let code = encode_ber_length (length value) in
    omega (arith, few_length_bytes (length value), length-append code value)

module _ (w : BerTlvWriter) (tag : ℕ) where
  pub write_primitive_lem :
      (value : Bytes)
      → length value < 0x100000000
      → (write_primitive tag value w).buffer ≡ w.buffer ++ primitive tag value
  unfolding write_primitive
  write_primitive_lem value h =
      let e : uint32 (length value) ≡ length value = omega arith in rw e (simp append_assoc)

  pub write_constructed_lem :
      (content_fn : BerTlvWriter → BerTlvWriter)
      → length (content_fn new_ber_tlv_writer).buffer < 0x100000000
      → (write_constructed tag content_fn w).buffer
        ≡ w.buffer ++ primitive tag (content_fn new_ber_tlv_writer).buffer
  unfolding write_constructed
  write_constructed_lem content_fn h =
      let content = (content_fn new_ber_tlv_writer).buffer in
      let e : uint32 (length content) ≡ length content = omega arith in rw e (simp append_assoc)
