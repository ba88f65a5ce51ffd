-- ===== src/SecureChannelV1/Protection.antt =====
-- What the V1 channel sends, what it accepts, and that it stays shut after a failure.
use keycard_go.Base.{
  ℕ, ◌+◌, ◌≤◌, ◌≡◌, refl, ap, ◌∙◌, inl, inr, Bool, Bool-cases, true, false, arith, ◌==◌, ltb,
  ge→ltb, if◌then◌else◌, not, length, length-append, ◌/◌, take, drop, some, Result, ok, err, v1,
  closed_after_error, invalid_mac, sym, ◌∷◌, ◌++◌, ◌%◌, replicate,
}
use keycard_go.Base.Bytes.{Bytes, bytes_equal, eq_of_bytes_equal}
use keycard_go.Apdu.Command.{new_command}
use keycard_go.Apdu.Response.{Response, parse_response}
use keycard_go.Crypto.Aes.{Aes, AesLaws}
use keycard_go.Crypto.Cbc.{encrypt_data, decrypt_data, calculate_mac}
use keycard_go.Crypto.Cbc.RoundTrip.{decrypt_data-encrypt_data}
use keycard_go.SecureChannelV1.{
  SecureChannelV1, close, command_meta, response_meta, update_iv, with_mac, verified,
  opened_response, key_bytes, protected, protected_command, receive,
}

abbrev accepted : Response → SecureChannelV1 → Result Response × SecureChannelV1
accepted x sc = (ok x, sc)

keeps_if :
    (b e : Bool) (x y : Result Response × SecureChannelV1)
    → x.1.established ≡ e
    → y.1.established ≡ e
    → (if b then x else y).1.established ≡ e
keeps_if true e x y hx hy = hx
keeps_if false e x y hx hy = hy

maybe_close_keeps :
    (b : Bool) (sc : SecureChannelV1) → (if b then close sc else sc).established ≡ sc.established
maybe_close_keeps true sc = refl
maybe_close_keeps false sc = refl

module _ (aes : Aes) where
  with_mac_keeps :
      (mac : Result Bytes) (sc : SecureChannelV1)
      → (with_mac aes mac sc).established ≡ sc.established
  unfolding with_mac
  with_mac_keeps (ok mac) sc = refl
  with_mac_keeps (err e) sc = refl

  verified_keeps :
      (rmeta rmac rdata : Bytes) (plain : Result Bytes) (sc : SecureChannelV1)
      → (verified aes rmeta rmac rdata plain sc).1.established ≡ sc.established
  unfolding verified update_iv
  verified_keeps rmeta rmac rdata (err e) sc = refl
  verified_keeps rmeta rmac rdata (ok plain) sc =
      let kept = with_mac_keeps (calculate_mac aes rmeta rdata sc.mac_key) sc in
      let sc' = update_iv aes rmeta rdata sc in
      keeps_if (not (bytes_equal sc'.iv rmac)) sc.established _ _ kept kept

  opened_response_keeps :
      (resp : Response) (sc : SecureChannelV1)
      → (opened_response aes resp sc).1.established ≡ sc.established
  unfolding opened_response
  opened_response_keeps resp sc =
      keeps_if (not sc.is_open) sc.established _ _ refl (
        keeps_if (ltb (length resp.payload) 16) sc.established _ _ refl (verified_keeps _ _ _ _ sc))

  -- No answer makes the channel forget that it was open before.
  receive_keeps :
      (answer : Result Response) (sc : SecureChannelV1)
      → (receive aes answer sc).1.established ≡ sc.established
  unfolding receive
  receive_keeps (err e) sc = refl
  receive_keeps (ok resp) sc =
      opened_response_keeps resp (if resp.sw == 0x6982 then close sc else sc)
      ∙ maybe_close_keeps (resp.sw == 0x6982) sc

  -- After an answer on which an established channel closes, it refuses to protect a command: it
  -- returns an error and does not change.
  pub refuses_after_close :
      (sc : SecureChannelV1) (answer : Result Response) (cla ins p1 p2 : ℕ) (payload : Bytes)
      → sc.established ≡ true
      → (receive aes answer sc).1.is_open ≡ false
      → protected_command aes cla ins p1 p2 payload (receive aes answer sc).1
        ≡ (err (v1 closed_after_error), (receive aes answer sc).1)
  unfolding protected_command
  refuses_after_close sc answer cla ins p1 p2 payload est closed =
      rw (closed, receive_keeps answer sc, est) refl

  -- The end of Transmit, by what the MAC computes to.
  checked_lem :
      (mac : Result Bytes) (rmac plain : Bytes) (sc sc' : SecureChannelV1) (x : Response)
      → (if not (bytes_equal (with_mac aes mac sc).iv rmac)
          then (err (v1 invalid_mac), close (with_mac aes mac sc))
          else (parse_response plain, with_mac aes mac sc))
        ≡ accepted x sc'
      → sc'.is_open ≡ true
      → (mac ≡ ok rmac) × (parse_response plain ≡ ok x) × (sc'.iv ≡ rmac)
  unfolding with_mac
  checked_lem (ok mac) rmac plain sc sc' x h still = elim (Bool-cases (bytes_equal mac rmac)) [
    | inl same ↦
        let e = eq_of_bytes_equal mac rmac same in
        let h' = rw same at h in (ap ok e, ap (λ p. p.0) h', sym (ap (λ p. p.1.iv) h') ∙ e)
    | inr other ↦ let h' = rw other at h in let bad = ap (λ p. p.0) h' in absurd cc
  ]
  checked_lem (err e) rmac plain sc sc' x h still = elim (Bool-cases (bytes_equal sc.iv rmac)) [
    | inl same ↦ let h' = rw same at h in let shut = ap (λ p. p.1.is_open) h' in absurd cc
    | inr other ↦ let h' = rw other at h in let bad = ap (λ p. p.0) h' in absurd cc
  ]

  verified_lem :
      (rmeta rmac rdata : Bytes) (decrypted : Result Bytes) (sc sc' : SecureChannelV1)
      (x : Response)
      → verified aes rmeta rmac rdata decrypted sc ≡ (ok x, sc')
      → sc'.is_open ≡ true
      → (calculate_mac aes rmeta rdata sc.mac_key ≡ ok rmac)
        × ((plain : Bytes) × (decrypted ≡ ok plain) × (parse_response plain ≡ ok x))
        × (sc'.iv ≡ rmac)
  unfolding verified update_iv
  verified_lem rmeta rmac rdata (err e) sc sc' x h still = let bad = ap (λ p. p.0) h in absurd cc
  verified_lem rmeta rmac rdata (ok plain) sc sc' x h still =
      let (mac, parsed, next) =
        checked_lem (calculate_mac aes rmeta rdata sc.mac_key) rmac plain sc sc' x h still in
      (mac, (plain, refl, parsed), next)

  opened_response_lem :
      (sc : SecureChannelV1) (resp x : Response) (enc_key : Bytes) (sc' : SecureChannelV1)
      → sc.is_open ≡ true
      → sc.enc_key ≡ some enc_key
      → opened_response aes resp sc ≡ (ok x, sc')
      → sc'.is_open ≡ true
      → (calculate_mac aes (response_meta resp.payload) (drop 16 resp.payload) sc.mac_key
          ≡ ok (take 16 resp.payload))
        × ((plain : Bytes) × (decrypt_data aes (drop 16 resp.payload) enc_key sc.iv ≡ ok plain)
            × (parse_response plain ≡ ok x))
        × (sc'.iv ≡ take 16 resp.payload)
  unfolding opened_response key_bytes
  opened_response_lem sc resp x enc_key sc' opened has_key h still =
      let h1 = rw (opened, has_key) at h in
      elim (Bool-cases (ltb (length resp.payload) 16)) [
        | inl short ↦ let h2 = rw short at h1 in let bad = ap (λ p. p.0) h2 in absurd cc
        | inr enough ↦
            let h2 = rw enough at h1 in
            verified_lem (response_meta resp.payload) (take 16 resp.payload) (drop 16 resp.payload)
              (decrypt_data aes (drop 16 resp.payload) enc_key sc.iv)
              (record sc { is_open = true; enc_key = some enc_key }) sc' x h2 still
      ]

  -- An open channel that answers with a response and stays open has checked it: its first 16 bytes
  -- are the MAC of the rest, under the session's key, the answer is what the rest decrypts to, and
  -- the MAC is the next IV.
  pub receive_authenticates :
      (sc : SecureChannelV1) (resp x : Response) (enc_key : Bytes) (sc' : SecureChannelV1)
      → sc.is_open ≡ true
      → sc.enc_key ≡ some enc_key
      → receive aes (ok resp) sc ≡ (ok x, sc')
      → sc'.is_open ≡ true
      → (calculate_mac aes (response_meta resp.payload) (drop 16 resp.payload) sc.mac_key
          ≡ ok (take 16 resp.payload))
        × ((plain : Bytes) × (decrypt_data aes (drop 16 resp.payload) enc_key sc.iv ≡ ok plain)
            × (parse_response plain ≡ ok x))
        × (sc'.iv ≡ take 16 resp.payload)
  unfolding receive opened_response
  receive_authenticates sc resp x enc_key sc' opened has_key h still =
      elim (Bool-cases (resp.sw == 0x6982)) [
        | inl refused ↦ let h' = rw refused at h in let shut = ap (λ p. p.1.is_open) h' in absurd cc
        | inr fine ↦
            let h' = rw fine at h in
            opened_response_lem sc resp x enc_key sc' opened has_key h' still
      ]

calculate_mac_succeeds :
    (aes : Aes) (meta payload mac_key : Bytes)
    → aes.accepts mac_key ≡ true
    → 16 ≤ length meta
    → (mac : Bytes) × (calculate_mac aes meta payload mac_key ≡ ok mac)
unfolding calculate_mac
calculate_mac_succeeds aes meta payload mac_key good h =
    let some_block : (length (meta ++ payload) / 16 == 0) ≡ false =
      ground (arith, length-append meta payload) in
    rw (good, some_block) (_, refl)

protect_open :
    (aes : Aes) (sc : SecureChannelV1) (enc_key : Bytes) (cla ins p1 p2 : ℕ) (payload : Bytes)
    → sc.is_open ≡ true
    → sc.enc_key ≡ some enc_key
    → protected_command aes cla ins p1 p2 payload sc
      ≡ protected aes cla ins p1 p2 (encrypt_data aes payload enc_key sc.iv) sc
unfolding protected_command
protect_open aes sc enc_key cla ins p1 p2 payload opened has_key = simp (opened, has_key) refl

protected_ok :
    (aes : Aes) (sc : SecureChannelV1) (cla ins p1 p2 : ℕ) (encrypted mac : Bytes)
    → length encrypted ≤ 239
    → calculate_mac aes (command_meta cla ins p1 p2 encrypted) encrypted sc.mac_key ≡ ok mac
    → protected aes cla ins p1 p2 (ok encrypted) sc
      ≡ (ok (new_command cla ins p1 p2 (mac ++ encrypted)), record sc { iv = mac })
unfolding protected update_iv with_mac
protected_ok aes sc cla ins p1 p2 encrypted mac small made =
    let fits : ltb 255 (length encrypted + 16) ≡ false =
      ge→ltb 255 (length encrypted + 16) (omega arith) in
    rw (fits, made) refl

-- What an open channel sends for a payload of at most 223 bytes, under keys that AES accepts and an
-- IV of 16 bytes, is the MAC of CLA, INS, P1, P2, the number of bytes sent and eleven zeros, and of the
-- encrypted payload, and then the latter, which
-- decrypts under the session's key and IV to the payload; the MAC is the next IV.
pub protects_command :
    (aes : Aes) (laws : AesLaws aes) (sc : SecureChannelV1) (enc_key : Bytes) (cla ins p1 p2 : ℕ)
    (payload : Bytes)
    → sc.is_open ≡ true
    → sc.enc_key ≡ some enc_key
    → aes.accepts enc_key ≡ true
    → aes.accepts sc.mac_key ≡ true
    → length sc.iv ≡ 16
    → length payload ≤ 223
    → (encrypted : Bytes) × (mac : Bytes) × (protected_command aes cla ins p1 p2 payload sc
        ≡ (ok (new_command cla ins p1 p2 (mac ++ encrypted)), record sc { iv = mac }))
      × (calculate_mac aes
            (cla ∷ ins ∷ p1 ∷ p2 ∷ (length encrypted + 16) ∷ replicate 11 0)
            encrypted
            sc.mac_key
          ≡ ok mac)
      × (decrypt_data aes encrypted enc_key sc.iv ≡ ok payload)
protects_command aes laws sc enc_key cla ins p1 p2 payload opened has_key good_key good_mac size
      small =
    let (encrypted, sent, read, whole, _, le) =
      decrypt_data-encrypt_data aes laws payload enc_key sc.iv good_key size in
    let (mac, made) =
      calculate_mac_succeeds aes (cla ∷ ins ∷ p1 ∷ p2 ∷ (length encrypted + 16) ∷ replicate 11 0)
        encrypted sc.mac_key good_mac (omega arith) in
    let header : (length encrypted + 16) % 256 ≡ length encrypted + 16 = omega (arith, le, small) in
    (
      encrypted,
      mac,
      protect_open aes sc enc_key cla ins p1 p2 payload opened has_key
          ∙ ap (λ r. protected aes cla ins p1 p2 r sc) sent
          ∙ protected_ok aes sc cla ins p1 p2 encrypted mac (omega arith) (rw header made),
      made,
      read,
    )
