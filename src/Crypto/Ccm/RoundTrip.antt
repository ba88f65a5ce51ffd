-- ===== src/Crypto/Ccm/RoundTrip.antt =====
-- Decryption against encryption.
use keycard_go.Base.{
  ℕ, ◌+◌, ◌-◌, ◌≤◌, ◌≡◌, refl, sym, ap, ◌∙◌, bit_xor, Bool, true, false, [], ◌∷◌, ◌++◌, arith, zero,
  suc, ◌/◌, length, take, drop, replicate, if◌then◌else◌, err, ccm, authentication, take-append_eq,
  drop-append_eq, take-append, drop-append, length-append, take-append_drop, length-take,
  length-drop, append_assoc, ok,
}
use keycard_go.Base.Bits.{bit_xor_cancel}
use keycard_go.Base.Bytes.{
  Bytes, copy_into, length-copy_into, bytes_equal, bytes_equal_refl, eq_of_bytes_equal,
}
use keycard_go.Crypto.Aes.{Aes, AesLaws}
use keycard_go.Crypto.Ccm.{
  xor_block, build_ctr_block, mac_loop, mac_last, compute_cbc_mac, xor_key_stream, ctr_crypt,
  build_b0, ccm_buffer, encrypt_and_authenticate, decrypt_and_authenticate,
}

module _ (aes : Aes) (key : Bytes) where
  length-xor_key_stream :
      (counter : Bytes) (i : ℕ) (bytes : Bytes)
      → length (xor_key_stream aes key counter i bytes) ≡ length bytes
  unfolding xor_key_stream
  length-xor_key_stream counter i [] = refl
  length-xor_key_stream counter i (d ∷ bytes) =
      omega (arith, length-xor_key_stream counter (i + 1) bytes)

  xor_key_stream-append :
      (counter : Bytes) (i : ℕ) (xs ys : Bytes)
      → xor_key_stream aes key counter i (xs ++ ys)
        ≡ xor_key_stream aes key counter i xs ++ xor_key_stream aes key counter (i + length xs) ys
  unfolding xor_key_stream
  xor_key_stream-append counter i [] ys =
      ap (λ (k : ℕ). xor_key_stream aes key counter k ys) (omega arith)
  xor_key_stream-append counter i (x ∷ xs) ys =
      let e : i + 1 + length xs ≡ i + suc (length xs) = omega arith in
      ap (λ t. bit_xor x (aes.key_stream key counter i) ∷ t)
        (rw e at (xor_key_stream-append counter (i + 1) xs ys))

  xor_key_stream_twice :
      (counter : Bytes) (i : ℕ) (xs : Bytes)
      → xor_key_stream aes key counter i (xor_key_stream aes key counter i xs) ≡ xs
  unfolding xor_key_stream
  xor_key_stream_twice counter i [] = refl
  xor_key_stream_twice counter i (x ∷ xs) =
      rw (bit_xor_cancel x (aes.key_stream key counter i), xor_key_stream_twice counter (i + 1) xs)

  -- The CTR pass on the layout: the tag from byte 0 of the stream, the payload from byte 16.
  abbrev pub stream : Bytes → ℕ → Bytes → Bytes
  stream nonce i bytes = xor_key_stream aes key (build_ctr_block nonce 0) i bytes

  crypt_parts :
      (nonce tag payload : Bytes)
      → length tag ≡ 8
      → (take 8 (ctr_crypt aes key nonce (ccm_buffer aes key tag payload)) ≡ stream nonce 0 tag)
        × (drop 16 (ctr_crypt aes key nonce (ccm_buffer aes key tag payload))
            ≡ stream nonce 16 payload)
  unfolding ctr_crypt
  crypt_parts nonce tag payload h =
      let copied : copy_into 8 tag ≡ tag = take-append_eq 8 tag (replicate 8 0) h in
      let zeros = replicate 8 zero in
      let first = stream nonce 0 tag in
      let second = stream nonce 8 zeros in
      let payload' = stream nonce 16 payload in
      let split : stream nonce 0 (tag ++ (zeros ++ payload)) ≡ first ++ (second ++ payload') =
        xor_key_stream-append (build_ctr_block nonce 0) 0 tag (zeros ++ payload)
        ∙ rw h (
            ap (λ t. first ++ t)
              (xor_key_stream-append (build_ctr_block nonce 0) 8 zeros payload)) in
      let len1 = length-xor_key_stream (build_ctr_block nonce 0) 0 tag in
      let len2 = length-xor_key_stream (build_ctr_block nonce 0) 8 zeros in
      rw (copied, split)
        (
          take-append_eq 8 first (second ++ payload') (len1 ∙ h),
          ap (drop 16) (sym (append_assoc first second payload'))
              ∙ drop-append_eq 16 (first ++ second) payload'
                  (omega (arith, length-append first second, len1, len2, h)),
        )

  -- The tag has eight bytes, since a block of the cipher has sixteen.
  length-xor_block : (block bytes : Bytes) → length (xor_block block bytes) ≡ length block
  unfolding xor_block
  length-xor_block [] bytes = refl
  length-xor_block (b ∷ block) [] = refl
  length-xor_block (b ∷ block) (d ∷ bytes) = omega (arith, length-xor_block block bytes)

module _ (aes : Aes) (laws : AesLaws aes) (key : Bytes) where
  encrypted_block :
      (block bytes : Bytes)
      → length block ≡ 16
      → length (aes.encrypt_block key (xor_block block bytes)) ≡ 16
  encrypted_block block bytes h =
      laws.length-encrypt_block key (xor_block block bytes)
        (length-xor_block aes key block bytes ∙ h)

  length-mac_loop :
      (left : ℕ) (block bytes : Bytes)
      → length block ≡ 16
      → length (mac_loop aes key left block bytes).0 ≡ 16
  unfolding mac_loop
  length-mac_loop zero block bytes h = h
  length-mac_loop (suc left) block bytes h =
      length-mac_loop left _ (drop 16 bytes) (encrypted_block block (take 16 bytes) h)

  length-mac_last :
      (block rest : Bytes) → length block ≡ 16 → length (mac_last aes key block rest) ≡ 16
  unfolding mac_last
  length-mac_last block [] h = h
  length-mac_last block (d ∷ bytes) h = encrypted_block block (d ∷ bytes) h

  length-compute_cbc_mac : (bytes b0 : Bytes) → length (compute_cbc_mac aes key bytes b0) ≡ 8
  unfolding compute_cbc_mac
  length-compute_cbc_mac bytes b0 =
      let start = laws.length-encrypt_block key (copy_into 16 b0) (length-copy_into 16 b0) in
      let loop =
        mac_loop aes key (length bytes / 16) (aes.encrypt_block key (copy_into 16 b0)) bytes in
      let whole = length-mac_last loop.0 loop.1 (
        length-mac_loop (length bytes / 16) (aes.encrypt_block key (copy_into 16 b0)) bytes
          start) in
      omega (arith, length-take 8 (mac_last aes key loop.0 loop.1), whole)

  encrypt_lem :
      (nonce plaintext : Bytes)
      → length nonce ≡ 13
      → length plaintext ≤ 0xfffe
      → encrypt_and_authenticate aes key nonce plaintext
        ≡ ok (
            stream aes key nonce 16 plaintext
            ++ stream aes key nonce 0
                (compute_cbc_mac aes key plaintext (build_b0 nonce (length plaintext))))
  unfolding encrypt_and_authenticate
  encrypt_lem nonce plaintext hn hp =
      let b0 = build_b0 nonce (length plaintext) in
      let tag = compute_cbc_mac aes key plaintext b0 in
      let parts = crypt_parts aes key nonce tag plaintext (length-compute_cbc_mac plaintext b0) in
      ground (arith, parts.0, parts.1)

module _ (aes : Aes) (key : Bytes) where
  -- On a message and a tag of eight bytes: accepted exactly if the tag is that of the plaintext.
  decrypt_lem :
      (nonce ciphertext tag : Bytes)
      → length nonce ≡ 13
      → length tag ≡ 8
      → decrypt_and_authenticate aes key nonce (ciphertext ++ tag) ≡ (
          if bytes_equal (stream aes key nonce 0 tag) (
            compute_cbc_mac aes key
              (stream aes key nonce 16 ciphertext)
              (build_b0 nonce (length (stream aes key nonce 16 ciphertext))))
          then ok (stream aes key nonce 16 ciphertext)
          else err (ccm authentication))
  unfolding decrypt_and_authenticate
  decrypt_lem nonce ciphertext tag hn ht =
      let parts = crypt_parts aes key nonce tag ciphertext ht in
      let size : length (ciphertext ++ tag) - 8 ≡ length ciphertext =
        omega (arith, length-append ciphertext tag) in
      rw (size, take-append ciphertext tag, drop-append ciphertext tag, parts.0, parts.1)
        (ground (arith, length-append ciphertext tag))

accepted_test {ℓ} :
    {A : Type ℓ} (b : Bool) (x y : A)
    → (if b then ok x else err (ccm authentication)) ≡ ok y
    → (b ≡ true) × (x ≡ y)
accepted_test true x y h = (refl, cc)
accepted_test false x y h = cc

accepted_size :
    (aes : Aes) (key nonce c p : Bytes)
    → decrypt_and_authenticate aes key nonce c ≡ ok p
    → 8 ≤ length c
unfolding decrypt_and_authenticate
accepted_size aes key nonce c p h = ground arith

module _ (aes : Aes) (laws : AesLaws aes) (key nonce : Bytes) (nonce13 : length nonce ≡ 13) where
  -- Decryption gives back every plaintext of at most 65534 bytes, under the same key and nonce.
  pub decrypt-encrypt :
      (plaintext : Bytes)
      → length plaintext ≤ 0xfffe
      → (c : Bytes) × (encrypt_and_authenticate aes key nonce plaintext ≡ ok c)
        × (length c ≡ length plaintext + 8)
        × (decrypt_and_authenticate aes key nonce c ≡ ok plaintext)
  decrypt-encrypt plaintext h =
      let b0 = build_b0 nonce (length plaintext) in
      let mac = compute_cbc_mac aes key plaintext b0 in
      let tag = stream aes key nonce 0 mac in
      let body = stream aes key nonce 16 plaintext in
      let len_tag : length tag ≡ 8 =
        length-xor_key_stream aes key (build_ctr_block nonce 0) 0 mac
        ∙ length-compute_cbc_mac aes laws key plaintext b0 in
      let len_body = length-xor_key_stream aes key (build_ctr_block nonce 0) 16 plaintext in
      (
        body ++ tag,
        encrypt_lem aes laws key nonce plaintext nonce13 h,
        omega (arith, length-append body tag, len_tag, len_body),
        decrypt_lem aes key nonce body tag nonce13 len_tag
            ∙ rw (
              xor_key_stream_twice aes key (build_ctr_block nonce 0) 16 plaintext,
              xor_key_stream_twice aes key (build_ctr_block nonce 0) 0 mac,
              bytes_equal_refl mac,
            ),
      )

  -- What decryption accepts is what encryption makes of the plaintext that it returns: no other
  -- message of at most 65534 bytes is accepted under the key and the nonce.
  pub encrypt-decrypt :
      (c plaintext : Bytes)
      → length c ≤ 0xfffe + 8
      → decrypt_and_authenticate aes key nonce c ≡ ok plaintext
      → encrypt_and_authenticate aes key nonce plaintext ≡ ok c
  encrypt-decrypt c plaintext h accepted =
      let n = length c - 8 in
      let body = take n c in
      let tag = drop n c in
      let size = accepted_size aes key nonce c plaintext accepted in
      let parts = take-append_drop n c in
      let len_tag : length tag ≡ 8 = omega (arith, length-drop n c, size) in
      let plain = stream aes key nonce 16 body in
      let len_plain = length-xor_key_stream aes key (build_ctr_block nonce 0) 16 body in
      let mac = compute_cbc_mac aes key plain (build_b0 nonce (length plain)) in
      let checked =
        accepted_test (bytes_equal (stream aes key nonce 0 tag) mac) plain plaintext
          (sym (decrypt_lem aes key nonce body tag nonce13 len_tag) ∙ rw parts accepted) in
      let same : stream aes key nonce 0 tag ≡ mac =
        eq_of_bytes_equal (stream aes key nonce 0 tag) mac checked.0 in
      let fits : length plain ≤ 0xfffe = omega (arith, len_plain, length-take n c, h) in
      rw (← checked.1) (
        encrypt_lem aes laws key nonce plain nonce13 fits
        ∙ rw (
          ← same,
          xor_key_stream_twice aes key (build_ctr_block nonce 0) 16 body,
          xor_key_stream_twice aes key (build_ctr_block nonce 0) 0 tag,
          parts,
        ))
