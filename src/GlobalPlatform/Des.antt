-- ===== src/GlobalPlatform/Des.antt =====
-- globalplatform/crypto/crypto.go over crypto/des of Go's standard library.
use keycard_go.Base.{
  ◌-◌, ◌%◌, Bool, [], ◌∷◌, ◌++◌, ltb, if◌then◌else◌, length, take, drop, replicate,
}
use keycard_go.Base.Bytes.{Bytes, bytes_equal}

-- CryptBlocks of cipher.NewCBCEncrypter for a key and an IV. A key of 8 bytes and one of 24 are always
-- accepted by NewCipher and NewTripleDESCipher, and the code makes no others.
pub record Des : Type 0 where
  pub cbc : Bytes → Bytes → Bytes → Bytes
  pub cbc_triple : Bytes → Bytes → Bytes → Bytes

abbrev pub derivation_purpose_enc : Bytes
derivation_purpose_enc = 0x01 ∷ 0x82 ∷ []

abbrev pub derivation_purpose_mac : Bytes
derivation_purpose_mac = 0x01 ∷ 0x01 ∷ []

abbrev pub null_bytes_8 : Bytes
null_bytes_8 = replicate 8 0

-- Of a key of at least 16 bytes.
abbrev pub resize_key_24 : Bytes → Bytes
resize_key_24 key = take 16 key ++ take 8 key

abbrev pub resize_key_8 : Bytes → Bytes
resize_key_8 key = take 8 key

unfoldable pub append_des_padding : Bytes → Bytes
append_des_padding plain =
    let padding_size = 8 - length plain % 8 in plain ++ 0x80 ∷ replicate (padding_size - 1) 0

module _ (des : Des) where
  unfoldable pub derive_key : Bytes → Bytes → Bytes → Bytes
  derive_key card_key seq purpose =
      des.cbc_triple (resize_key_24 card_key) null_bytes_8
        (take 2 purpose ++ (take 2 seq ++ replicate 12 0))

  -- Of 24 bytes.
  unfoldable pub mac_3des : Bytes → Bytes → Bytes → Bytes
  mac_3des key plain iv = drop 16 (des.cbc_triple (resize_key_24 key) iv plain)

  unfoldable pub verify_cryptogram : Bytes → Bytes → Bytes → Bytes → Bool
  verify_cryptogram enc_key host_challenge card_challenge card_cryptogram =
      bytes_equal
        (mac_3des enc_key (append_des_padding (host_challenge ++ card_challenge)) null_bytes_8)
        card_cryptogram

  -- Single DES over all blocks but the last, triple DES over that.
  unfoldable pub mac_full_3des : Bytes → Bytes → Bytes → Bytes
  mac_full_3des key input iv =
      let padded = append_des_padding input in
      let size = length padded - 8 in
      let chained = des.cbc (resize_key_8 key) iv (take size padded) in
      des.cbc_triple (resize_key_24 key)
        (if ltb 8 (length padded) then drop (size - 8) chained else iv) (drop size padded)

  unfoldable pub encrypt_icv : Bytes → Bytes → Bytes
  encrypt_icv mac_key icv = des.cbc (resize_key_8 mac_key) null_bytes_8 icv
