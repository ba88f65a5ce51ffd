-- ===== src/Crypto/Cbc/RoundTrip.antt =====
-- DecryptData on what EncryptData made.
use keycard_go.Base.{◌+◌, ◌%◌, ◌≤◌, ◌≡◌, refl, ap, true, false, arith, ◌==◌, length, ok}
use keycard_go.Base.Bytes.{Bytes}
use keycard_go.Crypto.Aes.{Aes, AesLaws}
use keycard_go.Crypto.Padding.{
  append_padding, append_padding_le, remove_padding-append_padding, length-append_padding,
}
use keycard_go.Crypto.Cbc.{encrypt_data, decrypt_data}

-- For a key that AES accepts and an IV of 16 bytes, encryption succeeds on data of any length, gives
-- whole blocks, at least one and at most 16 bytes more than the data, and decryption under the same key and IV gives the data back.
pub decrypt_data-encrypt_data :
    (aes : Aes) (laws : AesLaws aes) (plain key iv : Bytes)
    → aes.accepts key ≡ true
    → length iv ≡ 16
    → (c : Bytes) × (encrypt_data aes plain key iv ≡ ok c)
      × (decrypt_data aes c key iv ≡ ok plain)
      × (length c % 16 ≡ 0)
      × (16 ≤ length c)
      × (length c ≤ length plain + 16)
unfolding encrypt_data decrypt_data
decrypt_data-encrypt_data aes laws plain key iv accepted size =
    let padded = append_padding 16 plain in
    let (whole, some_block) = length-append_padding 16 plain (omega arith) in
    let len = laws.length-cbc_encrypt key iv padded in
    let filled : (length padded == 0) ≡ false = ground arith in
    (
      aes.cbc_encrypt key iv padded,
      rw (accepted, size) refl,
      rw (accepted, size, len, filled, whole, laws.cbc_decrypt-cbc_encrypt key iv padded whole)
          (ap ok (remove_padding-append_padding 16 plain (omega arith))),
      rw len whole,
      rw len some_block,
      rw len (append_padding_le 16 plain (omega arith)),
    )
