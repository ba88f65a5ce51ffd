-- ===== src/CommandSet.antt =====
-- command_set.go: the state of a CommandSet, sendProtected, and the calls on PIN, PUK, status and
-- stored data. The other calls are in the children.
pub mod Keys
pub mod Signing
pub mod Opening
pub mod Pairing
pub mod Ndef
pub mod Applets
pub mod Guard
pub mod Accessors
pub mod Runs
use keycard_go.Base.{
  ℕ, ◌+◌, ◌*◌, ◌/◌, Bool, List, [], ◌∷◌, ◌++◌, ◌==◌, ◌||◌, ltb, if◌then◌else◌, bit_or, Option, none,
  some, Result, ok, err, command_error, bad_checksum_size,
}
use keycard_go.Base.Bytes.{Bytes, uint8}
use keycard_go.Base.Exec.{Exec, pure, raise, lift, on_first, on_second, ◌>>=◌, ◌>>◌}
use keycard_go.Apdu.Command.{Command}
use keycard_go.Apdu.Response.{Response, check_ok}
use keycard_go.Commands.{new_command_factory_reset}
use keycard_go.Constants.Instructions.{
  ins_get_status, ins_verify_pin, ins_change_pin, ins_unblock_pin, ins_generate_mnemonic,
  ins_get_data, ins_store_data, ins_get_challenge,
}
use keycard_go.Constants.Parameters.{
  p1_get_status_application, p1_get_status_key_path, p1_change_pin_pin, p1_change_pin_puk,
  p1_change_pin_pairing_secret,
}
use keycard_go.Crypto.Aes.{Aes}
use keycard_go.Crypto.Curve.{Curve}
use keycard_go.Errors.{verify_pin_result, unblock_pin_result}
use keycard_go.SecureChannelV1
use keycard_go.SecureChannelV2
use keycard_go.SecureChannelV1.{SecureChannelV1}
use keycard_go.SecureChannelV2.{SecureChannelV2}
use keycard_go.Types.ApplicationInfo.{ApplicationInfo, no_application_info_yet}
use keycard_go.Types.ApplicationStatus.{ApplicationStatus, parse_application_status}

-- What a CommandSet uses of the libraries, and the channel to the card: a state and what a command
-- makes of it.
pub record Outside (W : Type 0) : Type 0 where
  pub aes : Aes
  pub curve : Curve
  pub sha512 : Bytes → Bytes
  -- PBKDF2 of a pairing password with PairingTokenSalt
  pub pairing_token : Bytes → Bytes
  -- ethcrypto.ToECDSA and the public key of its result
  pub public_key_of : Bytes → Result Bytes
  pub trim_space : Bytes → Bytes
  pub send : Command → Exec W Response

-- The values of the interface SecureChannel.
pub data SecureChannel : Type 0 where
  v1_channel : SecureChannelV1 → SecureChannel
  v2_channel : SecureChannelV2 → SecureChannel

-- The field `c` is the channel of Outside.
pub record CommandSet : Type 0 where
  pub sc : SecureChannel
  pub application_info : Option ApplicationInfo
  pub ca_public_keys : List Bytes
  pub whitelisted_keys : List Bytes

abbrev pub new_command_set_with_cas : List Bytes → List Bytes → CommandSet
new_command_set_with_cas ca_public_keys whitelisted_card_keys = record {
  sc = v2_channel (SecureChannelV2.new_secure_channel_v2 ca_public_keys whitelisted_card_keys);
  application_info = some no_application_info_yet;
  ca_public_keys = ca_public_keys;
  whitelisted_keys = whitelisted_card_keys;
}

abbrev pub with_channel {ℓ} :
    {A : Type ℓ} {S W : Type 0}
    → CommandSet
    → (S → SecureChannel)
    → Result A × (S × W)
    → Result A × (CommandSet × W)
with_channel cs wrap (result, (sc, w)) = (result, (record cs { sc = wrap sc }, w))

-- `if resp.Data` is read two bytes at a time, a last single byte is dropped.
unfoldable pub parse_mnemonic_response : Bytes → List ℕ
parse_mnemonic_response (a ∷ b ∷ rest) = bit_or (a * 256) b ∷ parse_mnemonic_response rest
parse_mnemonic_response _ = []

module _ {W : Type 0} (out : Outside W) where
  abbrev pub Call : Type 0 → Type 0
  Call A = Exec (CommandSet × W) A

  by_channel :
      ℕ → ℕ → ℕ → Bytes → SecureChannel → CommandSet → W → Result Response × (CommandSet × W)
  by_channel ins p1 p2 payload (v1_channel sc) cs w = with_channel cs v1_channel (
      (do
        cmd ← on_first (SecureChannelV1.protected_command out.aes 0x80 ins p1 p2 payload)
        SecureChannelV1.transmit out.aes out.send cmd)
        (sc, w))
  by_channel ins p1 p2 payload (v2_channel sc) cs w =
      with_channel cs v2_channel
        (SecureChannelV2.send_protected out.aes out.send ins p1 p2 payload (sc, w))

  unfoldable pub send_protected : ℕ → ℕ → ℕ → Bytes → Call Response
  unfolding by_channel
  send_protected ins p1 p2 payload (cs, w) = by_channel ins p1 p2 payload cs.sc cs w

  -- `resp, err := ...` and `apdu.CheckOK(resp, err)`
  abbrev pub checked : Call Response → Call Response
  checked call state = let (result, state') = call state in (check_ok result [], state')

  unfoldable pub send_checked : ℕ → ℕ → ℕ → Bytes → Call Response
  send_checked ins p1 p2 payload = checked (send_protected ins p1 p2 payload)

  -- The calls that return an error only.
  unfoldable pub done : ℕ → ℕ → ℕ → Bytes → Call (Unit {0})
  done ins p1 p2 payload = send_checked ins p1 p2 payload >> pure tt

  -- The calls that return the data of the response.
  unfoldable pub fetched : ℕ → ℕ → ℕ → Bytes → Call Bytes
  fetched ins p1 p2 payload = do resp ← send_checked ins p1 p2 payload; pure resp.payload

  -- A command that the channel does not protect.
  unfoldable pub send_plain : Command → Call Response
  send_plain cmd = checked (on_second (out.send cmd))

  unfoldable pub get_status : ℕ → Call ApplicationStatus
  get_status info = do
    payload ← fetched ins_get_status info 0 []
    lift (parse_application_status payload)

  abbrev pub get_status_application : Call ApplicationStatus
  get_status_application = get_status p1_get_status_application

  abbrev pub get_status_key_path : Call ApplicationStatus
  get_status_key_path = get_status p1_get_status_key_path

  unfoldable pub verify_pin : Bytes → Call (Unit {0})
  verify_pin pin state =
      let (result, state') = send_protected ins_verify_pin 0 0 pin state in
      (verify_pin_result result, state')

  unfoldable pub change_pin : Bytes → Call (Unit {0})
  change_pin pin = done ins_change_pin p1_change_pin_pin 0 pin

  unfoldable pub unblock_pin : Bytes → Bytes → Call (Unit {0})
  unblock_pin puk new_pin state =
      let (result, state') = send_protected ins_unblock_pin 0 0 (puk ++ new_pin) state in
      (unblock_pin_result result, state')

  unfoldable pub change_puk : Bytes → Call (Unit {0})
  change_puk puk = done ins_change_pin p1_change_pin_puk 0 puk

  unfoldable pub change_pairing_secret : Bytes → Call (Unit {0})
  change_pairing_secret password =
      done ins_change_pin p1_change_pin_pairing_secret 0 (out.pairing_token password)

  unfoldable pub change_pairing_password : Bytes → Call (Unit {0})
  change_pairing_password password =
      done ins_change_pin p1_change_pin_pairing_secret 0 (out.pairing_token password)

  -- Of a size that is not negative.
  unfoldable pub generate_mnemonic : ℕ → Call (List ℕ)
  generate_mnemonic checksum_size =
      if ltb checksum_size 4 || ltb 8 checksum_size
      then raise (command_error bad_checksum_size)
      else (do
        payload ← fetched ins_generate_mnemonic (uint8 checksum_size) 0 []
        pure (parse_mnemonic_response payload))

  unfoldable pub get_data : ℕ → Call Bytes
  get_data typ = fetched ins_get_data typ 0 []

  unfoldable pub store_data : ℕ → Bytes → Call (Unit {0})
  store_data typ payload = done ins_store_data typ 0 payload

  unfoldable pub store_data_with_offset : ℕ → Bytes → ℕ → Call (Unit {0})
  store_data_with_offset typ payload offset = done ins_store_data typ (uint8 (offset / 4)) payload

  unfoldable pub get_challenge : ℕ → Call Bytes
  get_challenge length = fetched ins_get_challenge length 0 []

  unfoldable pub factory_reset : Call (Unit {0})
  factory_reset = send_plain new_command_factory_reset >> pure tt
