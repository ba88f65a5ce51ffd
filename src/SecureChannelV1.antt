-- ===== src/SecureChannelV1.antt =====
-- secure_channel.go: the state of the V1 channel, the session keys, the protection of a command, and
-- what Transmit does with the response.
pub mod Protection
pub mod Opening
use keycard_go.Base.{
  ℕ, ◌+◌, Bool, true, false, [], ◌∷◌, ◌++◌, ltb, ◌==◌, if◌then◌else◌, not, length, take, drop,
  replicate, Option, none, some, Result, ok, err, v1, closed_after_error, no_session_key,
  protected_too_large, response_too_short, cbc_decryption_failed, invalid_mac, no_secret,
  no_pairing,
}
use keycard_go.Base.Bytes.{Bytes, uint8, bytes_equal}
use keycard_go.Base.Exec.{Exec, continue}
use keycard_go.Apdu.Command.{Command, new_command}
use keycard_go.Apdu.Response.{Response, parse_response}
use keycard_go.Types.Pairing.{Pairing}
use keycard_go.Crypto.Aes.{Aes}
use keycard_go.Crypto.Cbc.{encrypt_data, decrypt_data, calculate_mac, derive_session_keys}

-- The field `open` is `is_open`, the public key is the 65 bytes that it is sent as, and a nil slice of
-- the fields that the code does not compare with nil is the empty one. The channel is a parameter of
-- the methods that use it.
pub record SecureChannelV1 : Type 0 where
  pub is_open : Bool
  pub established : Bool
  pub secret : Option Bytes
  pub enc_key : Option Bytes
  pub mac_key : Bytes
  pub iv : Bytes
  pub public_key : Option Bytes
  pub pairing : Option Pairing

abbrev pub new_secure_channel : SecureChannelV1
new_secure_channel = record {
  is_open = false;
  established = false;
  secret = none;
  enc_key = none;
  mac_key = [];
  iv = [];
  public_key = none;
  pairing = none;
}

-- The method Init.
abbrev pub init : Bytes → Bytes → Bytes → SecureChannelV1 → SecureChannelV1
init iv enc_key mac_key sc = record sc {
  iv = iv;
  enc_key = some enc_key;
  mac_key = mac_key;
  is_open = true;
  established = true;
}

abbrev pub reset : SecureChannelV1 → SecureChannelV1
reset sc = record sc { is_open = false; established = false; enc_key = none; mac_key = []; iv = [] }

abbrev pub close : SecureChannelV1 → SecureChannelV1
close sc = record sc { is_open = false }

key_bytes : Option Bytes → Bytes
key_bytes none = []
key_bytes (some key) = key

session : Result (Bytes × (Bytes × Bytes)) → Exec SecureChannelV1 (Unit {0})
session (ok (enc_key, (mac_key, iv))) sc =
    (ok tt, record sc { enc_key = some enc_key; mac_key = mac_key; iv = iv; is_open = true })
session (err e) sc = (err e, sc)

unfoldable pub process_open_response : (Bytes → Bytes) → Bytes → Exec SecureChannelV1 (Unit {0})
unfolding session
process_open_response sha512 response sc = elim sc.secret [
  | none ↦ (err (v1 no_secret), sc)
  | some secret ↦ elim sc.pairing [
    | none ↦ (err (v1 no_pairing), sc)
    | some p ↦ session (derive_session_keys sha512 secret p.key response) sc
  ]
]

-- CLA | INS | P1 | P2 | length | zeros
abbrev pub command_meta : ℕ → ℕ → ℕ → ℕ → Bytes → Bytes
command_meta cla ins p1 p2 encrypted =
    cla ∷ ins ∷ p1 ∷ p2 ∷ uint8 (length encrypted + 16) ∷ replicate 11 0

abbrev pub response_meta : Bytes → Bytes
response_meta payload = uint8 (length payload) ∷ replicate 15 0

module _ (aes : Aes) where
  with_mac : Result Bytes → SecureChannelV1 → SecureChannelV1
  with_mac (ok mac) sc = record sc { iv = mac }
  with_mac (err e) sc = close sc

  unfoldable pub update_iv : Bytes → Bytes → SecureChannelV1 → SecureChannelV1
  unfolding with_mac
  update_iv meta payload sc = with_mac (calculate_mac aes meta payload sc.mac_key) sc

  protected : ℕ → ℕ → ℕ → ℕ → Result Bytes → Exec SecureChannelV1 Command
  protected cla ins p1 p2 (err e) sc = (err e, sc)
  protected cla ins p1 p2 (ok encrypted) sc =
      if ltb 255 (length encrypted + 16)
      then (err (v1 protected_too_large), sc)
      else let sc' = update_iv (command_meta cla ins p1 p2 encrypted) encrypted sc in
        (ok (new_command cla ins p1 p2 (sc'.iv ++ encrypted)), sc')

  unfoldable pub protected_command : ℕ → ℕ → ℕ → ℕ → Bytes → Exec SecureChannelV1 Command
  unfolding protected
  protected_command cla ins p1 p2 payload sc =
      if not sc.is_open
      then (
        (if sc.established
            then err (v1 closed_after_error)
            else ok (new_command cla ins p1 p2 payload)),
        sc,
      )
      else elim sc.enc_key [
        | none ↦ (err (v1 no_session_key), sc)
        | some key ↦ protected cla ins p1 p2 (encrypt_data aes payload key sc.iv) sc
      ]

  -- Transmit after the decryption; `rmac` and `rdata` are the two parts of the response.
  verified : Bytes → Bytes → Bytes → Result Bytes → Exec SecureChannelV1 Response
  verified rmeta rmac rdata (err e) sc = (err (v1 cbc_decryption_failed), close sc)
  verified rmeta rmac rdata (ok plain) sc =
      let sc' = update_iv rmeta rdata sc in
      if not (bytes_equal sc'.iv rmac)
      then (err (v1 invalid_mac), close sc')
      else (parse_response plain, sc')

  opened_response : Response → Exec SecureChannelV1 Response
  unfolding verified key_bytes
  opened_response resp sc =
      if not sc.is_open
      then (ok resp, sc)
      else if ltb (length resp.payload) 16
      then (err (v1 response_too_short), close sc)
      else let rdata = drop 16 resp.payload in
        verified (response_meta resp.payload) (take 16 resp.payload) rdata
          (decrypt_data aes rdata (key_bytes sc.enc_key) sc.iv) sc

  -- Transmit after `ch.Send(cmd)` has answered.
  unfoldable pub receive : Result Response → Exec SecureChannelV1 Response
  unfolding opened_response
  receive (err e) sc = (err e, close sc)
  receive (ok resp) sc = opened_response resp (if resp.sw == 0x6982 then close sc else sc)

  -- The channel to the card is a state `W` and what a command makes of it.
  module _ {W : Type 0} (send : Command → Exec W Response) where
    unfoldable pub transmit : Command → Exec (SecureChannelV1 × W) Response
    transmit cmd (sc, w) =
        let (answer, w') = send cmd w in
        let (result, sc') = receive answer sc in (result, (sc', w'))

    -- The method Send.
    unfoldable pub send_command : Command → Exec (SecureChannelV1 × W) Response
    send_command cmd (sc, w) =
        let (result, sc') = protected_command cmd.cla cmd.ins cmd.p1 cmd.p2 cmd.payload sc in
        continue result transmit (sc', w)
