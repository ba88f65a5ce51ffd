-- ===== src/Crypto/Aes.antt =====
-- crypto/aes and crypto/cipher of Go's standard library, as the package crypto uses them.
use keycard_go.Base.{ℕ, ◌%◌, ◌≡◌, Bool, length}
use keycard_go.Base.Bytes.{Bytes}

pub record Aes : Type 0 where
  -- whether aes.NewCipher(key) succeeds
  pub accepts : Bytes → Bool
  -- block.Encrypt under a key
  pub encrypt_block : Bytes → Bytes → Bytes
  -- byte `i` of the key stream that cipher.NewCTR gives for a key and a first counter block
  pub key_stream : Bytes → Bytes → ℕ → ℕ
  -- CryptBlocks of cipher.NewCBCEncrypter and cipher.NewCBCDecrypter for a key and an IV
  pub cbc_encrypt : Bytes → Bytes → Bytes → Bytes
  pub cbc_decrypt : Bytes → Bytes → Bytes → Bytes

-- What the documentation of those packages says of them.
pub record AesLaws (aes : Aes) : Type 0 where
  pub length-encrypt_block :
      (key block : Bytes) → length block ≡ 16 → length (aes.encrypt_block key block) ≡ 16
  pub length-cbc_encrypt :
      (key iv plain : Bytes) → length (aes.cbc_encrypt key iv plain) ≡ length plain
  pub cbc_decrypt-cbc_encrypt :
      (key iv plain : Bytes)
      → length plain % 16 ≡ 0
      → aes.cbc_decrypt key iv (aes.cbc_encrypt key iv plain) ≡ plain
