-- ===== src/Tlv/Length.antt =====
-- The BER length codec of tlv/tlv.go.
pub mod RoundTrip
pub mod Bounds
use keycard_go.Base.{
  ℕ, zero, suc, ◌+◌, ◌*◌, ◌/◌, bit_and, bit_or, Bool, List, [], ◌∷◌, ltb, leb, ◌==◌, if◌then◌else◌,
  length, get_or, Result, ok, err, tlv, no_length, indefinite_length, length_too_long,
  length_truncated,
}
use keycard_go.Base.Bytes.{Bytes, uint8, uint32}

-- `n >> 8`, `n >> 16` and `n >> 24` are the quotients by 256, 256 * 256 and 256 * 256 * 256.
unfoldable pub encode_ber_length : ℕ → Bytes
encode_ber_length length =
    if ltb length 0x80
    then uint8 length ∷ []
    else if ltb length 0x100
    then 0x81 ∷ uint8 length ∷ []
    else if ltb length 0x10000
    then 0x82 ∷ uint8 (length / 0x100) ∷ uint8 length ∷ []
    else if ltb length 0x1000000
    then 0x83 ∷ uint8 (length / 0x10000) ∷ uint8 (length / 0x100) ∷ uint8 length ∷ []
    else 0x84
      ∷ uint8 (length / 0x1000000)
      ∷ uint8 (length / 0x10000)
      ∷ uint8 (length / 0x100)
      ∷ uint8 length
      ∷ []

-- The loop `for i := 0; i < numBytes; i++` over data[off+i], by the bytes left.
pub length_loop : Bytes → ℕ → ℕ → ℕ → ℕ
length_loop input at zero value = value
length_loop input at (suc left) value =
    length_loop input (at + 1) left (bit_or (uint32 (value * 256)) (get_or input at 0))

pub decode_ber_length : Bytes → ℕ → Result (ℕ × ℕ)
decode_ber_length input off =
    if leb (length input) off
    then err (tlv no_length)
    else let first = get_or input off 0 in
      let off' = off + 1 in
      let num_bytes = bit_and first 0x7f in
      if ltb first 0x80
      then ok (first, off')
      else if first == 0x80
      then err (tlv indefinite_length)
      else if ltb 4 num_bytes
      then err (tlv length_too_long)
      else if ltb (length input) (off' + num_bytes)
      then err (tlv length_truncated)
      else ok (length_loop input off' num_bytes 0, off' + num_bytes)
