-- ===== src/SecureChannelV2/Acceptance.antt =====
-- Which answers Transmit of the V2 channel accepts.
use keycard_go.Base.{
  ◌+◌, ◌≤◌, ◌≡◌, ◌⊎◌, inl, inr, refl, Bool-cases, true, arith, ◌==◌, length, some, Result, ok, err,
}
use keycard_go.Base.Bytes.{Bytes}
use keycard_go.Apdu.Response.{Response, parse_response}
use keycard_go.Crypto.Aes.{Aes, AesLaws}
use keycard_go.Crypto.Ccm.{aes_ccm_encrypt, aes_ccm_decrypt, encrypt_and_authenticate}
use keycard_go.Crypto.Ccm.RoundTrip.{encrypt-decrypt}
use keycard_go.SecureChannelV2.{SecureChannelV2, receive, received, close, increment_nonce}
use keycard_go.SecureChannelV2.Protection.{IsKey, reads_answer, received_ok}

-- The answer is 9000 with the encryption of a plaintext under the key and the nonce.
abbrev pub IsSealed : Aes → Bytes → Bytes → Result Response → Bytes → Type 0
IsSealed aes key nonce (ok resp) plaintext =
    (resp.sw ≡ 0x9000) × (aes_ccm_encrypt aes key nonce plaintext ≡ ok resp.payload)
IsSealed aes key nonce (err e) plaintext = ⊥

-- The outcome of an exchange in which `answer` came, under the card's key.
abbrev pub IsJudged : Aes → SecureChannelV2 → Bytes → Result Response → Type 0
IsJudged aes sc key answer =
    ((plaintext : Bytes) × IsSealed aes key sc.nonce_counter answer plaintext
      × (receive aes answer sc ≡ (parse_response plaintext, increment_nonce sc)))
    ⊎ (¬ ((plaintext : Bytes) × IsSealed aes key sc.nonce_counter answer plaintext)
        × ((receive aes answer sc).1 ≡ close sc))

-- An answer of at most 65542 bytes.
abbrev pub IsShort : Result Response → Type 0
IsShort (ok resp) = length resp.payload ≤ 0xfffe + 8
IsShort (err e) = Unit

module _ (aes : Aes) (laws : AesLaws aes) (key nonce : Bytes) (k : IsKey aes key)
    (nonce13 : length nonce ≡ 13) where
  made_by :
      (c plaintext : Bytes)
      → length c ≤ 0xfffe + 8
      → aes_ccm_decrypt aes key nonce c ≡ ok plaintext
      → aes_ccm_encrypt aes key nonce plaintext ≡ ok c
  unfolding aes_ccm_encrypt aes_ccm_decrypt
  made_by c plaintext small read =
      let made =
        encrypt-decrypt aes laws key nonce nonce13 c plaintext small
          (ground (arith, k.size, k.accepted, read)) in
      ground (arith, k.size, k.accepted, made)

  short_plaintext :
      (c plaintext : Bytes)
      → aes_ccm_encrypt aes key nonce plaintext ≡ ok c
      → length plaintext ≤ 0xfffe
  unfolding aes_ccm_encrypt encrypt_and_authenticate
  short_plaintext c plaintext made = ground (arith, k.size, k.accepted, made)

module _ (aes : Aes) (laws : AesLaws aes) (sc : SecureChannelV2) (key : Bytes)
    (opened : sc.is_open ≡ true) (has_key : sc.key_c2h ≡ some key) (k : IsKey aes key)
    (nonce13 : length sc.nonce_counter ≡ 13) where
  read_lem :
      (resp : Response) (x : Result Bytes)
      → length resp.payload ≤ 0xfffe + 8
      → resp.sw ≡ 0x9000
      → aes_ccm_decrypt aes key sc.nonce_counter resp.payload ≡ x
      → IsJudged aes sc key (ok resp)
  unfolding receive received
  read_lem resp (ok plaintext) small good read = inl (
    plaintext,
    (good, made_by aes laws key sc.nonce_counter k nonce13 resp.payload plaintext small read),
    received_ok aes sc key resp plaintext opened has_key good read,
  )
  read_lem resp (err e) small good failed = inr (
    (λ sealed.
        let (plaintext, (_, made)) = sealed in
        let n = sc.nonce_counter in
        let short = short_plaintext aes laws key n k nonce13 resp.payload plaintext made in
        let read = reads_answer aes laws key n plaintext resp.payload k nonce13 short made in
        absurd cc),
    ground (arith, good, opened, has_key, failed),
  )

  -- With a card's key of 16 bytes that AES accepts and a nonce of 13 bytes: of the answers of at most
  -- 65542 bytes, an open channel accepts exactly a 9000 whose data is the encryption of a plaintext
  -- under the card's key and the channel's own nonce. It then returns what the plaintext parses to as
  -- a response, and moves to the next nonce. On any other answer, and on an error of the transport, it
  -- is closed, and nothing else of it changes.
  pub receive_lem : (answer : Result Response) → IsShort answer → IsJudged aes sc key answer
  unfolding receive
  receive_lem (err e) small = inr ((λ sealed. sealed.1), refl)
  receive_lem (ok resp) small = elim (Bool-cases (resp.sw == 0x9000)) [
    | inr other ↦
        inr ((λ sealed. let (_, (good, _)) = sealed in ground (arith, good, other)), rw other refl)
    | inl same ↦
        read_lem resp (aes_ccm_decrypt aes key sc.nonce_counter resp.payload) small
          (ground (arith, same)) refl
  ]
