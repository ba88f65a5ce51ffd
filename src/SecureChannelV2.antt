-- ===== src/SecureChannelV2.antt =====
-- secure_channel_v2.go: the state of the V2 channel, the protection of a command, and what Transmit
-- does with the response. The handshake, the DER signatures and the nonce are in the children.
pub mod Nonce
pub mod Handshake
pub mod Protection
pub mod Acceptance
pub mod Sessions
pub mod Plain
pub mod Identity
pub mod Authentic
pub mod Life
use keycard_go.Base.{
  ℕ, Bool, true, false, List, [], ◌∷◌, ◌++◌, ltb, ◌==◌, if◌then◌else◌, not, length, Option, none,
  some, Result, ok, err, v2, payload_too_large, no_host_key, no_card_key, encryption_failed,
  decryption_failed, replicate,
}
use keycard_go.Base.Bytes.{Bytes, uint8}
use keycard_go.Base.Exec.{Exec, continue}
use keycard_go.Apdu.Command.{Command, new_command}
use keycard_go.Apdu.Response.{Response, sw_ok, parse_response}
use keycard_go.Crypto.Aes.{Aes}
use keycard_go.Crypto.Ccm.{aes_ccm_encrypt, aes_ccm_decrypt}
use keycard_go.SecureChannelV2.Nonce.{increment_bytes}

-- The field `open` is `is_open`; a key of 33 bytes is a list.
pub record SecureChannelV2 : Type 0 where
  pub ca_public_keys : List Bytes
  pub whitelisted_card_keys : List Bytes
  pub key_h2c : Option Bytes
  pub key_c2h : Option Bytes
  pub nonce_counter : Bytes
  pub is_open : Bool
  pub card_ident_pub : Option Bytes
  pub client_eph_priv_key : Option Bytes

abbrev pub zero_nonce : Bytes
zero_nonce = replicate 13 0

abbrev pub new_secure_channel_v2 : List Bytes → List Bytes → SecureChannelV2
new_secure_channel_v2 ca_public_keys whitelisted_card_keys = record {
  ca_public_keys = ca_public_keys;
  whitelisted_card_keys = whitelisted_card_keys;
  key_h2c = none;
  key_c2h = none;
  nonce_counter = zero_nonce;
  is_open = false;
  card_ident_pub = none;
  client_eph_priv_key = none;
}

abbrev pub close : SecureChannelV2 → SecureChannelV2
close sc = record sc { is_open = false }

-- The bytes of a key that is dropped are also overwritten; the model drops the key.
pub zeroize_keys : SecureChannelV2 → SecureChannelV2
zeroize_keys sc = record sc { key_h2c = none; key_c2h = none }

pub reset : SecureChannelV2 → SecureChannelV2
unfolding zeroize_keys
reset sc = record (zeroize_keys (close sc)) {
  nonce_counter = zero_nonce;
  card_ident_pub = none;
  client_eph_priv_key = none;
}

-- On overflow the session is closed.
pub increment_nonce : SecureChannelV2 → SecureChannelV2
increment_nonce sc =
    let (counter, overflow) = increment_bytes sc.nonce_counter in
    record sc { nonce_counter = counter; is_open = if overflow then false else sc.is_open }

abbrev pub ins_secured_apdu : ℕ
ins_secured_apdu = 0x18

-- The inner APDU: CLA | INS | P1 | P2 | LC | data.
abbrev pub inner_apdu : ℕ → ℕ → ℕ → ℕ → Bytes → Bytes
inner_apdu cla ins p1 p2 payload = cla ∷ ins ∷ p1 ∷ p2 ∷ uint8 (length payload) ∷ payload

module _ (aes : Aes) where
  encrypt_ccm : SecureChannelV2 → Bytes → Result Bytes
  encrypt_ccm sc plaintext = elim sc.key_h2c [
    | none ↦ err (v2 no_host_key)
    | some key ↦ aes_ccm_encrypt aes key sc.nonce_counter plaintext
  ]

  decrypt_ccm : SecureChannelV2 → Bytes → Result Bytes
  decrypt_ccm sc ciphertext = elim sc.key_c2h [
    | none ↦ err (v2 no_card_key)
    | some key ↦ aes_ccm_decrypt aes key sc.nonce_counter ciphertext
  ]

  secured : Result Bytes → Result Command
  secured (ok ciphertext) = ok (new_command 0x80 ins_secured_apdu 0 0 ciphertext)
  secured (err e) = err (v2 encryption_failed)

  pub protected_command : ℕ → ℕ → ℕ → ℕ → Bytes → Exec SecureChannelV2 Command
  unfolding secured encrypt_ccm
  protected_command cla ins p1 p2 payload sc =
      if not sc.is_open
      then (ok (new_command cla ins p1 p2 payload), sc)
      else if ltb 255 (length payload)
      then (err (v2 payload_too_large), sc)
      else (secured (encrypt_ccm sc (inner_apdu cla ins p1 p2 payload)), sc)

  received : Result Bytes → Exec SecureChannelV2 Response
  received (ok plaintext) sc = (parse_response plaintext, increment_nonce sc)
  received (err e) sc = (err (v2 decryption_failed), close sc)

  -- Transmit after `ch.Send(cmd)` has answered.
  pub receive : Result Response → Exec SecureChannelV2 Response
  unfolding received decrypt_ccm
  receive (err e) sc = (err e, close sc)
  receive (ok resp) sc =
      if not (resp.sw == sw_ok)
      then (ok resp, close sc)
      else if not sc.is_open
      then (ok resp, sc)
      else received (decrypt_ccm sc resp.payload) sc

  -- The channel to the card is a state `W` and what a command makes of it.
  module _ {W : Type 0} (send : Command → Exec W Response) where
    pub transmit : Command → Exec (SecureChannelV2 × W) Response
    unfolding receive
    transmit cmd (sc, w) =
        let (answer, w') = send cmd w in
        let (result, sc') = receive answer sc in (result, (sc', w'))

    -- sendProtected of command_set.go on a V2 channel.
    pub send_protected : ℕ → ℕ → ℕ → Bytes → Exec (SecureChannelV2 × W) Response
    send_protected ins p1 p2 payload (sc, w) =
        let (result, sc') = protected_command 0x80 ins p1 p2 payload sc in
        continue result transmit (sc', w)
