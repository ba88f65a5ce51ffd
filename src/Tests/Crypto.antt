-- ===== src/Tests/Crypto.antt =====
-- The package crypto with a cipher that meets the laws.
use keycard_go.Base.{◌+◌, ◌≡◌, refl, [], ◌∷◌, arith, length, ok, replicate}
use keycard_go.Base.Bytes.{Bytes, bytes_equal}
use keycard_go.Crypto.Padding.{append_padding}
use keycard_go.Crypto.Ccm.{
  encrypt_and_authenticate, decrypt_and_authenticate, compute_cbc_mac, ctr_crypt, build_b0,
}
use keycard_go.Crypto.Ccm.RoundTrip.{decrypt-encrypt, encrypt-decrypt}
use keycard_go.Tests.Ciphers.{toy_aes, toy_laws}

padded_two : append_padding 8 (1 ∷ 2 ∷ []) ≡ 1 ∷ 2 ∷ 0x80 ∷ 0 ∷ 0 ∷ 0 ∷ 0 ∷ 0 ∷ []
unfolding append_padding
padded_two = refl

abbrev key : Bytes
key = replicate 16 5

abbrev nonce : Bytes
nonce = replicate 13 0

abbrev message : Bytes
message = 0x80 ∷ 0x20 ∷ 0 ∷ 0 ∷ 2 ∷ 0x31 ∷ 0x32 ∷ []

decrypt-encrypt_example :
    (c : Bytes) × (encrypt_and_authenticate toy_aes key nonce message ≡ ok c)
    × (length c ≡ 7 + 8)
    × (decrypt_and_authenticate toy_aes key nonce c ≡ ok message)
decrypt-encrypt_example = decrypt-encrypt toy_aes toy_laws key nonce refl message (omega arith)

abbrev sealed : Bytes
sealed = 245 ∷ 92 ∷ 131 ∷ 138 ∷ 147 ∷ 169 ∷ 173 ∷ 156 ∷ 44 ∷ 19 ∷ 26 ∷ 35 ∷ 25 ∷ 29 ∷ 54 ∷ []

opens : decrypt_and_authenticate toy_aes key nonce sealed ≡ ok message
unfolding decrypt_and_authenticate compute_cbc_mac ctr_crypt build_b0 bytes_equal
opens = refl

encrypt-decrypt_example : encrypt_and_authenticate toy_aes key nonce message ≡ ok sealed
encrypt-decrypt_example =
    encrypt-decrypt toy_aes toy_laws key nonce refl sealed message (omega arith) opens
