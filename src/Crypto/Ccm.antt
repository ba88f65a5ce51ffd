-- ===== src/Crypto/Ccm.antt =====
-- crypto/ccm.go: AES-CCM with a 13-byte nonce and an 8-byte tag, over the block cipher and the key
-- stream of the standard library.
pub mod RoundTrip
use keycard_go.Base.{
  ℕ, zero, suc, ◌+◌, ◌-◌, ◌/◌, bit_xor, Bool, [], ◌∷◌, ◌++◌, ltb, ◌==◌, if◌then◌else◌, not, length,
  take, drop, replicate, Result, ok, err, ccm, nonce_length, plaintext_too_long,
  ciphertext_too_short, authentication, bad_key_length, bad_key,
}
use keycard_go.Base.Bytes.{Bytes, uint8, copy_into, bytes_equal}
use keycard_go.Crypto.Aes.{Aes}

abbrev pub ccm_nonce_len : ℕ
ccm_nonce_len = 13

abbrev pub ccm_tag_len : ℕ
ccm_tag_len = 8

unfoldable pub build_b0 : Bytes → ℕ → Bytes
build_b0 nonce msg_len =
    0x19 ∷ (copy_into ccm_nonce_len nonce ++ uint8 (msg_len / 256) ∷ uint8 msg_len ∷ [])

unfoldable pub build_ctr_block : Bytes → ℕ → Bytes
build_ctr_block nonce counter =
    0x01 ∷ (copy_into ccm_nonce_len nonce ++ uint8 (counter / 256) ∷ uint8 counter ∷ [])

-- `block[i] ^= data[i]` over the data, which may be shorter than the block.
unfoldable pub xor_block : Bytes → Bytes → Bytes
xor_block [] bytes = []
xor_block (b ∷ block) [] = b ∷ block
xor_block (b ∷ block) (d ∷ bytes) = bit_xor b d ∷ xor_block block bytes

module _ (aes : Aes) (key : Bytes) where
  -- `for len(data) >= 16`, by the rounds left; what the loop leaves is the rest of the data.
  mac_loop : ℕ → Bytes → Bytes → Bytes × Bytes
  unfolding xor_block
  mac_loop zero block bytes = (block, bytes)
  mac_loop (suc left) block bytes =
      mac_loop left (aes.encrypt_block key (xor_block block (take 16 bytes))) (drop 16 bytes)

  mac_last : Bytes → Bytes → Bytes
  unfolding xor_block
  mac_last block [] = block
  mac_last block (d ∷ bytes) = aes.encrypt_block key (xor_block block (d ∷ bytes))

  -- The rounds of the loop are as many as there are whole blocks of data.
  unfoldable pub compute_cbc_mac : Bytes → Bytes → Bytes
  unfolding mac_loop mac_last
  compute_cbc_mac bytes b0 =
      let (block, rest) =
        mac_loop (length bytes / 16) (aes.encrypt_block key (copy_into 16 b0)) bytes in
      take ccm_tag_len (mac_last block rest)

  -- XORKeyStream: each byte with the byte of the stream at its place.
  unfoldable pub xor_key_stream : Bytes → ℕ → Bytes → Bytes
  xor_key_stream counter i [] = []
  xor_key_stream counter i (d ∷ bytes) =
      bit_xor d (aes.key_stream key counter i) ∷ xor_key_stream counter (i + 1) bytes

  unfoldable pub ctr_crypt : Bytes → Bytes → Bytes
  unfolding xor_key_stream build_ctr_block
  ctr_crypt nonce bytes = xor_key_stream (build_ctr_block nonce 0) 0 bytes

  -- The layout [tag | 8 zero bytes | payload], which one CTR pass takes.
  abbrev pub ccm_buffer : Bytes → Bytes → Bytes
  ccm_buffer tag payload = copy_into ccm_tag_len tag ++ (replicate 8 0 ++ payload)

  unfoldable pub encrypt_and_authenticate : Bytes → Bytes → Result Bytes
  encrypt_and_authenticate nonce plaintext =
      if not (length nonce == ccm_nonce_len)
      then err (ccm nonce_length)
      else if ltb 0xfffe (length plaintext)
      then err (ccm plaintext_too_long)
      else let b0 = build_b0 nonce (length plaintext) in
        let buf = ctr_crypt nonce (ccm_buffer (compute_cbc_mac plaintext b0) plaintext) in
        ok (drop 16 buf ++ take ccm_tag_len buf)

  unfoldable pub decrypt_and_authenticate : Bytes → Bytes → Result Bytes
  decrypt_and_authenticate nonce ciphertext_with_tag =
      if not (length nonce == ccm_nonce_len)
      then err (ccm nonce_length)
      else if ltb (length ciphertext_with_tag) ccm_tag_len
      then err (ccm ciphertext_too_short)
      else let n = length ciphertext_with_tag - ccm_tag_len in
        let ciphertext = take n ciphertext_with_tag in
        let tag = drop n ciphertext_with_tag in
        let buf = ctr_crypt nonce (ccm_buffer tag ciphertext) in
        let plaintext = drop 16 buf in
        let b0 = build_b0 nonce (length plaintext) in
        let expected_tag = compute_cbc_mac plaintext b0 in
        if bytes_equal (take ccm_tag_len buf) expected_tag
        then ok plaintext
        else err (ccm authentication)

  unfoldable pub aes_ccm_encrypt : Bytes → Bytes → Result Bytes
  aes_ccm_encrypt nonce plaintext =
      if not (length key == 16)
      then err (ccm bad_key_length)
      else if not (length nonce == 13)
      then err (ccm nonce_length)
      else if aes.accepts key
      then encrypt_and_authenticate nonce plaintext
      else err bad_key

  unfoldable pub aes_ccm_decrypt : Bytes → Bytes → Result Bytes
  aes_ccm_decrypt nonce ciphertext_with_tag =
      if not (length key == 16)
      then err (ccm bad_key_length)
      else if not (length nonce == 13)
      then err (ccm nonce_length)
      else if aes.accepts key
      then decrypt_and_authenticate nonce ciphertext_with_tag
      else err bad_key
