-- ===== src/Types/Pairing.antt =====
-- types/pairing.go; the functions of base64 are arguments.
use keycard_go.Base.{
  ℕ, ◌∷◌, ltb, if◌then◌else◌, length, get_or, Result, ok, err, parsing, pairing_too_short,
}
use keycard_go.Base.Bytes.{Bytes, slice}

pub record Pairing : Type 0 where
  pub key : Bytes
  pub index : ℕ

abbrev pub new_pairing : Bytes → ℕ → Pairing
new_pairing key index = record { key = key; index = index }

unfoldable pub pairing_from_bytes : Bytes → Result Pairing
pairing_from_bytes input =
    if ltb (length input) 33
    then err (parsing pairing_too_short)
    else ok (record { key = slice 1 32 input; index = get_or input 0 0 })

-- The key is an array of 32 bytes.
unfoldable pub pairing_to_bytes : Pairing → Bytes
pairing_to_bytes p = p.index ∷ p.key

unfoldable pub pairing_from_base64 : (Bytes → Result Bytes) → Bytes → Result Pairing
pairing_from_base64 decode_base64 text = elim (decode_base64 text) [
  | ok bytes ↦ pairing_from_bytes bytes
  | err e ↦ err e
]

unfoldable pub pairing_to_base64 : (Bytes → Bytes) → Pairing → Bytes
pairing_to_base64 encode_base64 p = encode_base64 (pairing_to_bytes p)
