-- ===== src/Tests/DerivationPath.antt =====
-- The package derivationpath on concrete data: m/44'/60 and m/60/44'.
use keycard_go.Base.{◌≡◌, refl, [], ◌∷◌, ℕ, arith, ok}
use keycard_go.Apdu.Command.{new_command}
use keycard_go.Commands.Paths.{new_command_derive_key}
use keycard_go.DerivationPath.Encoder.{encode}
use keycard_go.DerivationPath.Decoder.{decode, master}
use keycard_go.DerivationPath.Decoder.RoundTrip.{decode-encode_path, decode_drops_hardened}
use keycard_go.DerivationPath.Decoder.Rounds.{IsDecoded, decode-IsDecoded}
use keycard_go.DerivationPath.KeyPath.{KeyPath, key_path_from_string}
use keycard_go.DerivationPath.KeyPath.Agreement.{derive_key_agrees}
use keycard_go.DerivationPath.KeyPath.Bounds.{IsKeyPath, key_path_from_string-IsKeyPath}

abbrev account : ℕ
account = 0x8000002c

decode-encode_path_example : decode (encode (account ∷ 60 ∷ [])) ≡ ok (master, account ∷ 60 ∷ [])
decode-encode_path_example = decode-encode_path (account ∷ []) 60 (omega arith, tt) (omega arith)

decode_drops_hardened_example : decode (encode (60 ∷ account ∷ [])) ≡ ok (master, 60 ∷ [])
decode_drops_hardened_example =
    decode_drops_hardened (60 ∷ []) account (omega arith, tt) (omega arith) (omega arith)

-- m/a
decode-IsDecoded_example : IsDecoded (decode (0x6d ∷ 0x2f ∷ 0x61 ∷ []))
decode-IsDecoded_example = decode-IsDecoded (0x6d ∷ 0x2f ∷ 0x61 ∷ [])

-- ../7', where no space is trimmed.
key_path_from_string-IsKeyPath_example :
    IsKeyPath (key_path_from_string (λ text. text) (0x2e ∷ 0x2e ∷ 0x2f ∷ 0x37 ∷ 0x27 ∷ []))
key_path_from_string-IsKeyPath_example =
    key_path_from_string-IsKeyPath (λ text. text) (0x2e ∷ 0x2e ∷ 0x2f ∷ 0x37 ∷ 0x27 ∷ [])

derive_key_agrees_example :
    (kp : KeyPath) × (key_path_from_string (λ text. text) (encode (account ∷ 60 ∷ [])) ≡ ok kp)
    × (new_command_derive_key (encode (account ∷ 60 ∷ []))
        ≡ ok (new_command 0x80 0xd1 kp.source 0 kp.raw))
derive_key_agrees_example =
    derive_key_agrees (λ text. text) (account ∷ []) 60 refl (omega arith, tt) (omega arith)
      (omega arith)
