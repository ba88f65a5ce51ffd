-- ===== src/Tests/Secrets.antt =====
-- Generated secrets, hex text and a mnemonic of three words.
use keycard_go.Base.{
  ℕ, List, ◌+◌, ◌*◌, ◌<◌, ◌≡◌, ◌↔◌, refl, true, [], ◌∷◌, ◌++◌, arith, length, ok, replicate,
}
use keycard_go.Base.Bytes.{Bytes, AllBytes}
use keycard_go.Hex.{bytes_to_hex, hex_to_bytes}
use keycard_go.Secrets.{Secrets, new_secrets, generate_secrets}
use keycard_go.Secrets.Digits.{IsPadded, generate_secrets_lem}
use keycard_go.Types.Mnemonic.{bit_at, validate_checksum}
use keycard_go.Types.Mnemonic.Bits.{stream}
use keycard_go.Types.Mnemonic.Checksum.{validate_checksum_lem}

abbrev same : Bytes → Bytes
same bytes = bytes

generate_secrets_lem_example :
    (secrets : Secrets) × (generate_secrets same same (ok (replicate 12 9)) (ok 42) (ok 7)
      ≡ ok secrets)
    × IsPadded 6 7 secrets.pin
    × IsPadded 12 42 secrets.puk
    × (secrets ≡ new_secrets same secrets.pin secrets.puk (replicate 12 9))
generate_secrets_lem_example =
    generate_secrets_lem same same (replicate 12 9) 42 7 (omega arith) (omega arith)

cafe : hex_to_bytes (bytes_to_hex (0xca ∷ 0xfe ∷ []) ++ (0x20 ∷ [])) ≡ ok (0xca ∷ 0xfe ∷ [])
unfolding bytes_to_hex hex_to_bytes
cafe = refl

-- 33 bits: four bytes and one bit.
abbrev indices : List ℕ
indices = 1 ∷ 2 ∷ 3 ∷ []

validate_checksum_lem_example :
    (entropy : Bytes) × (length entropy ≡ 4 * 1)
    × AllBytes entropy
    × ((q : ℕ) → q < 32 * 1 → bit_at entropy q ≡ stream indices q)
    × ((validate_checksum same indices (3 * 1) ≡ true)
        ↔ ((j : ℕ) → j < 1 → bit_at (same entropy) j ≡ stream indices (32 * 1 + j)))
validate_checksum_lem_example = validate_checksum_lem 1 indices refl same
