-- ===== src/Crypto/Cbc.antt =====
-- EncryptData, DecryptData, CalculateMAC and DeriveSessionKeys of crypto/crypto.go.
pub mod RoundTrip
use keycard_go.Base.{
  ℕ, zero, suc, ◌/◌, ◌%◌, ◌++◌, not, ◌||◌, ◌==◌, if◌then◌else◌, length, take, drop, replicate,
  Result, ok, err, bad_key, bad_iv, bad_ciphertext, mac_too_short, bad_session_data,
}
use keycard_go.Base.Bytes.{Bytes}
use keycard_go.Crypto.Aes.{Aes}
use keycard_go.Crypto.Ccm.{xor_block}
use keycard_go.Crypto.Padding.{append_padding, remove_padding}

module _ (aes : Aes) where
  unfoldable pub encrypt_data : Bytes → Bytes → Bytes → Result Bytes
  encrypt_data plain enc_key iv =
      if not (aes.accepts enc_key)
      then err bad_key
      else if not (length iv == 16)
      then err bad_iv
      else ok (aes.cbc_encrypt enc_key iv (append_padding 16 plain))

  unfoldable pub decrypt_data : Bytes → Bytes → Bytes → Result Bytes
  decrypt_data ciphertext enc_key iv =
      if not (aes.accepts enc_key)
      then err bad_key
      else if not (length iv == 16)
      then err bad_iv
      else if length ciphertext == 0 || not (length ciphertext % 16 == 0)
      then err bad_ciphertext
      else ok (remove_padding 16 (aes.cbc_decrypt enc_key iv ciphertext))

  -- `for i := 0; i < numBlocks; i++`, by the blocks left and the bytes from the next block on.
  mac_rounds : ℕ → Bytes → Bytes → Bytes → Bytes
  mac_rounds zero mac_key rest state = state
  mac_rounds (suc blocks) mac_key rest state =
      mac_rounds blocks mac_key (drop 16 rest)
        (aes.encrypt_block mac_key (xor_block state (take 16 rest)))

  unfoldable pub calculate_mac : Bytes → Bytes → Bytes → Result Bytes
  unfolding mac_rounds
  calculate_mac meta payload mac_key =
      let combined = meta ++ payload in
      let num_blocks = length combined / 16 in
      if not (aes.accepts mac_key)
      then err bad_key
      else if num_blocks == 0
      then err mac_too_short
      else ok (mac_rounds num_blocks mac_key combined (replicate 16 0))

-- `sha512` is the sum of Go's crypto/sha512.
unfoldable pub derive_session_keys :
    (Bytes → Bytes) → Bytes → Bytes → Bytes → Result (Bytes × (Bytes × Bytes))
derive_session_keys sha512 secret pairing_key card_data =
    if not (length card_data == 48)
    then err bad_session_data
    else let sum = sha512 (secret ++ (pairing_key ++ take 32 card_data)) in
      ok (take 32 sum, (drop 32 sum, drop 32 card_data))
