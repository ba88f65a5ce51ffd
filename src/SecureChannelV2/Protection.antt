-- ===== src/SecureChannelV2/Protection.antt =====
-- What the channel does to a command and to a response.
use keycard_go.Base.{
  ℕ, ◌%◌, ◌≤◌, ◌≡◌, ◌≢◌, ◌⊎◌, inl, inr, true, ◌∷◌, arith, length, some, Result, ok, err, Error,
}
use mathlib.Core.Path.{subst}
use keycard_go.Base.Bytes.{Bytes}
use keycard_go.Apdu.Command.{new_command}
use keycard_go.Apdu.Response.{Response, parse_response}
use keycard_go.Crypto.Aes.{Aes, AesLaws}
use keycard_go.Crypto.Ccm.{aes_ccm_encrypt, aes_ccm_decrypt}
use keycard_go.Crypto.Ccm.RoundTrip.{decrypt-encrypt}
use keycard_go.SecureChannelV2.{SecureChannelV2, protected_command, receive, increment_nonce}

-- An AES key: sixteen bytes that the cipher accepts.
pub record IsKey (aes : Aes) (key : Bytes) : Type 0 where
  pub size : length key ≡ 16
  pub accepted : aes.accepts key ≡ true

module _ (aes : Aes) (laws : AesLaws aes) (key nonce : Bytes) (k : IsKey aes key)
    (nonce13 : length nonce ≡ 13) where
  -- AES-CCM with the checks of the key and the nonce.
  pub ccm_round_trip :
      (plaintext : Bytes)
      → length plaintext ≤ 0xfffe
      → (c : Bytes) × (aes_ccm_encrypt aes key nonce plaintext ≡ ok c)
        × (aes_ccm_decrypt aes key nonce c ≡ ok plaintext)
  unfolding aes_ccm_encrypt aes_ccm_decrypt
  ccm_round_trip plaintext h =
      let (c, sent, size, read) = decrypt-encrypt aes laws key nonce nonce13 plaintext h in
      (c, ground (arith, k.size, k.accepted, sent), ground (arith, k.size, k.accepted, read))

module _ (aes : Aes) (laws : AesLaws aes) where
  -- What was encrypted is read back.
  pub reads_answer :
      (key n plain c : Bytes)
      → IsKey aes key
      → length n ≡ 13
      → length plain ≤ 0xfffe
      → aes_ccm_encrypt aes key n plain ≡ ok c
      → aes_ccm_decrypt aes key n c ≡ ok plain
  reads_answer key n plain c k size short sent =
      let (c', sent', read) = ccm_round_trip aes laws key n k size plain short in
      let e : c' ≡ c = cc (sent, sent') in
      subst (λ x. aes_ccm_decrypt aes key n x ≡ ok plain) e read

  -- An open channel sends a command of at most 255 bytes of data as one SECURED APDU, 80 18 00 00,
  -- whose data a holder of the key reads, under the channel's nonce, as CLA, INS, P1, P2, the number
  -- of bytes and the bytes of the command. The channel is left as it was.
  pub protected_command_lem :
      (sc : SecureChannelV2) (key : Bytes) (cla ins p1 p2 : ℕ) (payload : Bytes)
      → sc.is_open ≡ true
      → sc.key_h2c ≡ some key
      → IsKey aes key
      → length sc.nonce_counter ≡ 13
      → length payload ≤ 255
      → (c : Bytes) × (protected_command aes cla ins p1 p2 payload sc
          ≡ (ok (new_command 0x80 0x18 0 0 c), sc))
        × (aes_ccm_decrypt aes key sc.nonce_counter c
            ≡ ok (cla ∷ ins ∷ p1 ∷ p2 ∷ length payload ∷ payload))
  unfolding protected_command
  protected_command_lem sc key cla ins p1 p2 payload opened has_key k nonce13 small =
      let (c, sent, read) =
        ccm_round_trip aes laws key sc.nonce_counter k nonce13
          (cla ∷ ins ∷ p1 ∷ p2 ∷ length payload ∷ payload) (omega arith) in
      let whole : length payload % 256 ≡ length payload = omega (arith, small) in
      (c, rw whole (ground (arith, sent)), read)

module _ (aes : Aes) where
  pub received_ok :
      (sc : SecureChannelV2) (key : Bytes) (resp : Response) (plaintext : Bytes)
      → sc.is_open ≡ true
      → sc.key_c2h ≡ some key
      → resp.sw ≡ 0x9000
      → aes_ccm_decrypt aes key sc.nonce_counter resp.payload ≡ ok plaintext
      → receive aes (ok resp) sc ≡ (parse_response plaintext, increment_nonce sc)
  unfolding receive
  received_ok sc key resp plaintext opened has_key good read = ground arith

  -- After an exchange whose response was not 0x9000, or that failed in the transport, the next
  -- command that asks for protection, whatever it carries, goes out in plaintext.
  pub plaintext_after_failure :
      (answer : Result Response) (sc : SecureChannelV2) (cla ins p1 p2 : ℕ) (payload : Bytes)
      → ((e : Error) × (answer ≡ err e)) ⊎ ((r : Response) × (answer ≡ ok r) × (r.sw ≢ 0x9000))
      → let sc' = (receive aes answer sc).1 in
        protected_command aes cla ins p1 p2 payload sc'
        ≡ (ok (new_command cla ins p1 p2 payload), sc')
  unfolding receive protected_command
  plaintext_after_failure answer sc cla ins p1 p2 payload (inl (e, h)) = rw h
  plaintext_after_failure answer sc cla ins p1 p2 payload (inr (r, h, bad)) = rw h (ground arith)

-- A decryption that succeeds had a nonce of thirteen bytes.
pub aes_ccm_decrypt_size :
    (aes : Aes) (key nonce c plain : Bytes)
    → aes_ccm_decrypt aes key nonce c ≡ ok plain
    → length nonce ≡ 13
unfolding aes_ccm_decrypt
aes_ccm_decrypt_size aes key nonce c plain h = ground arith
