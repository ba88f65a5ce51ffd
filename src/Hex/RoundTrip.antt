-- ===== src/Hex/RoundTrip.antt =====
-- Hex text read back.
use keycard_go.Base.{ℕ, ◌+◌, ◌*◌, ◌/◌, ◌%◌, ◌<◌, ◌≡◌, refl, false, [], ◌∷◌, ◌==◌, arith, some, ok}
use keycard_go.Base.Bytes.{Bytes, AllBytes}
use keycard_go.Hex.{
  hex_digit, bytes_to_hex, bytes_to_hex_with_spaces, digit_value, decoded_pair, decode_string,
  without_spaces, hex_to_bytes,
}

digit_value-hex_digit : (n : ℕ) → n < 16 → digit_value (hex_digit n) ≡ some n
unfolding digit_value hex_digit
digit_value-hex_digit n h = ground arith

no_space : (n : ℕ) → (hex_digit n == 0x20) ≡ false
unfolding hex_digit
no_space n = ground arith

module _ (b : ℕ) (rest : Bytes) where
  pair_lem :
      (text : Bytes)
      → b < 256
      → decode_string text ≡ ok rest
      → decode_string (hex_digit (b / 16) ∷ hex_digit (b % 16) ∷ text) ≡ ok (b ∷ rest)
  unfolding decode_string decoded_pair
  pair_lem text small h =
      let high = digit_value-hex_digit (b / 16) (omega (arith, small)) in
      let low = digit_value-hex_digit (b % 16) (omega arith) in
      let whole : b / 16 * 16 + b % 16 ≡ b = omega arith in rw (high, low, h, whole) refl

decode-hex :
    (bytes : Bytes)
    → AllBytes bytes
    → decode_string (without_spaces (bytes_to_hex bytes)) ≡ ok bytes
unfolding bytes_to_hex without_spaces
decode-hex [] h = unfold decode_string in refl
decode-hex (b ∷ rest) (hb, hs) =
    rw (no_space (b / 16), no_space (b % 16))
      (pair_lem b rest (without_spaces (bytes_to_hex rest)) hb (decode-hex rest hs))

decode-spaced :
    (bytes : Bytes)
    → AllBytes bytes
    → decode_string (without_spaces (bytes_to_hex_with_spaces bytes)) ≡ ok bytes
unfolding bytes_to_hex_with_spaces without_spaces
decode-spaced [] h = unfold decode_string in refl
decode-spaced (b ∷ []) (hb, hs) =
    rw (no_space (b / 16), no_space (b % 16)) (pair_lem b [] [] hb (unfold decode_string in refl))
decode-spaced (b ∷ c ∷ rest) (hb, hs) =
    rw (no_space (b / 16), no_space (b % 16))
      (pair_lem b (c ∷ rest) (without_spaces (bytes_to_hex_with_spaces (c ∷ rest))) hb
        (decode-spaced (c ∷ rest) hs))

-- HexToBytes reads back the text that BytesToHex and BytesToHexWithSpaces make of any bytes.
pub hex_to_bytes-bytes_to_hex :
    (bytes : Bytes)
    → AllBytes bytes
    → (hex_to_bytes (bytes_to_hex bytes) ≡ ok bytes)
      × (hex_to_bytes (bytes_to_hex_with_spaces bytes) ≡ ok bytes)
unfolding hex_to_bytes
hex_to_bytes-bytes_to_hex bytes h = (decode-hex bytes h, decode-spaced bytes h)
