-- ===== src/Hex.antt =====
-- hexutils/hexutils.go: fmt's %X and "% X" of a byte slice, and hex.DecodeString.
pub mod RoundTrip
use keycard_go.Base.{
  ℕ, ◌+◌, ◌-◌, ◌*◌, ◌/◌, ◌%◌, Bool, ◌&&◌, [], ◌∷◌, ltb, leb, ◌==◌, if◌then◌else◌, Option, none,
  some, Result, ok, err, parsing, bad_hex,
}
use keycard_go.Base.Bytes.{Bytes}

hex_digit : ℕ → ℕ
hex_digit n = if ltb n 10 then 0x30 + n else 0x37 + n

unfoldable pub bytes_to_hex : Bytes → Bytes
unfolding hex_digit
bytes_to_hex [] = []
bytes_to_hex (b ∷ rest) = hex_digit (b / 16) ∷ hex_digit (b % 16) ∷ bytes_to_hex rest

unfoldable pub bytes_to_hex_with_spaces : Bytes → Bytes
unfolding hex_digit
bytes_to_hex_with_spaces [] = []
bytes_to_hex_with_spaces (b ∷ []) = hex_digit (b / 16) ∷ hex_digit (b % 16) ∷ []
bytes_to_hex_with_spaces (b ∷ c ∷ rest) =
    hex_digit (b / 16) ∷ hex_digit (b % 16) ∷ 0x20 ∷ bytes_to_hex_with_spaces (c ∷ rest)

-- A digit of hex.DecodeString, which knows both cases.
digit_value : ℕ → Option ℕ
digit_value c =
    if leb 0x30 c && leb c 0x39
    then some (c - 0x30)
    else if leb 0x61 c && leb c 0x66
    then some (c - 0x57)
    else if leb 0x41 c && leb c 0x46
    then some (c - 0x37)
    else none

decoded_pair : Option ℕ → Option ℕ → Result Bytes → Result Bytes
decoded_pair (some high) (some low) (ok rest) = ok ((high * 16 + low) ∷ rest)
decoded_pair (some high) (some low) (err e) = err e
decoded_pair _ _ rest = err (parsing bad_hex)

decode_string : Bytes → Result Bytes
unfolding digit_value decoded_pair
decode_string [] = ok []
decode_string (c ∷ []) = err (parsing bad_hex)
decode_string (c ∷ d ∷ rest) = decoded_pair (digit_value c) (digit_value d) (decode_string rest)

-- spaceReplacer.ReplaceAllString(s, "")
without_spaces : Bytes → Bytes
without_spaces [] = []
without_spaces (c ∷ rest) =
    let others = without_spaces rest in if c == 0x20 then others else c ∷ others

unfoldable pub hex_to_bytes : Bytes → Result Bytes
unfolding decode_string without_spaces
hex_to_bytes s = decode_string (without_spaces s)
