-- ===== src/CommandSet/Pairing.antt =====
-- command_set.go: pairing, and the opening of a V1 channel by OpenSecureChannel.
pub mod Guard
use keycard_go.Base.{
  ℕ, not, [], ◌++◌, ◌==◌, if◌then◌else◌, take, drop, get_or, Option, none, some, Result, ok, err,
  command_error, no_pairing_slots, no_application_info, not_v1, no_channel_pairing, bad_cryptogram,
  v2, pairing_unsupported,
}
use keycard_go.Base.Bytes.{Bytes, bytes_equal}
use keycard_go.Base.Exec.{pure, raise, lift, ◌>>=◌, ◌>>◌}
use keycard_go.Apdu.Response.{Response, check_ok}
use keycard_go.Commands.{
  new_command_pair_first_step, new_command_pair_final_step, new_command_open_secure_channel,
}
use keycard_go.CommandSet.{
  CommandSet, SecureChannel, v1_channel, v2_channel, Outside, Call, with_channel, done, send_plain,
}
use keycard_go.Constants.Instructions.{ins_mutually_authenticate}
use keycard_go.Constants.Parameters.{sw_no_available_pairing_slots, p2_pair_any}
use keycard_go.Crypto.Cbc.{derive_session_keys}
use keycard_go.SecureChannelV1.{SecureChannelV1}
use keycard_go.SecureChannelV1
use keycard_go.SecureChannelV1.Opening.{auto_pair, unpair, unpair_others}
use keycard_go.Types.ApplicationInfo.{ApplicationInfo}
use keycard_go.Types.Pairing.{Pairing, new_pairing}

-- VerifyCryptogram of crypto/crypto.go, of the hash that PBKDF2 makes of the pairing password.
unfoldable pub verify_cryptogram : (Bytes → Bytes) → Bytes → Bytes → Bytes → Result Bytes
verify_cryptogram sha256 challenge secret_hash card_cryptogram =
    if not (bytes_equal (sha256 (secret_hash ++ challenge)) card_cryptogram)
    then err (command_error bad_cryptogram)
    else ok secret_hash

-- SetPairing, which a V2 channel ignores.
unfoldable pub set_channel_pairing : Pairing → SecureChannel → SecureChannel
set_channel_pairing p (v1_channel sc) = v1_channel (record sc { pairing = some p })
set_channel_pairing p (v2_channel sc) = v2_channel sc

module _ {W : Type 0} (out : Outside W) where
  unfoldable pub set_pairing : Pairing → Call out (Unit {0})
  set_pairing p (cs, w) = (ok tt, (record cs { sc = set_channel_pairing p cs.sc }, w))

  -- The first answer, before its check.
  no_slots : Result Response → Call out Response
  no_slots (err e) = raise e
  no_slots (ok resp) =
      if resp.sw == sw_no_available_pairing_slots
      then raise (command_error no_pairing_slots)
      else lift (check_ok (ok resp) [])

  first_step : Bytes → Call out Response
  unfolding no_slots
  first_step challenge (cs, w) =
      let (answer, w') = out.send (new_command_pair_first_step challenge) w in
      no_slots answer (cs, w')

  -- Of a first answer of at least 32 bytes and a second one of at least one; on shorter ones the code
  -- panics. `random` is what rand.Read gives.
  unfoldable pub pair : Result Bytes → Bytes → Call out (Unit {0})
  unfolding first_step
  pair random pairing_pass = do
    challenge ← lift random
    resp ← first_step challenge
    secret_hash ← lift (
        verify_cryptogram out.curve.sha256 challenge (out.pairing_token pairing_pass)
          (take 32 resp.payload))
    final ←
        send_plain out
          (new_command_pair_final_step (out.curve.sha256 (secret_hash ++ drop 32 resp.payload)))
    set_pairing (
        new_pairing (out.curve.sha256 (secret_hash ++ drop 1 final.payload))
          (get_or final.payload 0 0))

  pair_by :
      Result Bytes
      → ℕ
      → Bytes
      → SecureChannel
      → CommandSet
      → W
      → Result (Unit {0}) × (CommandSet × W)
  pair_by random mode secret (v1_channel sc) cs w =
      with_channel cs v1_channel
        (auto_pair out.aes out.send out.curve.sha256 mode secret random (sc, w))
  pair_by random mode secret (v2_channel sc) cs w = (err (v2 pairing_unsupported), (cs, w))

  unfoldable pub auto_pair_with_secret_and_mode : Result Bytes → Bytes → ℕ → Call out (Unit {0})
  unfolding pair_by
  auto_pair_with_secret_and_mode random shared_secret mode (cs, w) =
      pair_by random mode shared_secret cs.sc cs w

  abbrev pub auto_pair_with_mode : Result Bytes → Bytes → ℕ → Call out (Unit {0})
  auto_pair_with_mode random pairing_pass mode =
      auto_pair_with_secret_and_mode random (out.pairing_token pairing_pass) mode

  abbrev pub auto_pair_with_secret : Result Bytes → Bytes → Call out (Unit {0})
  auto_pair_with_secret random shared_secret =
      auto_pair_with_secret_and_mode random shared_secret p2_pair_any

  unpair_by : ℕ → SecureChannel → CommandSet → W → Result (Unit {0}) × (CommandSet × W)
  unpair_by index (v1_channel sc) cs w =
      with_channel cs v1_channel ((unpair out.aes out.send index >> pure tt) (sc, w))
  unpair_by index (v2_channel sc) cs w = (err (v2 pairing_unsupported), (cs, w))

  unfoldable pub unpair_index : ℕ → Call out (Unit {0})
  unfolding unpair_by
  unpair_index index (cs, w) = unpair_by index cs.sc cs w

  others_by : SecureChannel → CommandSet → W → Result (Unit {0}) × (CommandSet × W)
  others_by (v1_channel sc) cs w =
      with_channel cs v1_channel (unpair_others out.aes out.send (sc, w))
  others_by (v2_channel sc) cs w = (err (v2 pairing_unsupported), (cs, w))

  unfoldable pub unpair_other_clients : Call out (Unit {0})
  unfolding others_by
  unpair_other_clients (cs, w) = others_by cs.sc cs w

  mutual_authenticate : Call out (Unit {0})
  mutual_authenticate = done out ins_mutually_authenticate 0 0 []

  bytes_or_nil : Option Bytes → Bytes
  bytes_or_nil none = []
  bytes_or_nil (some bytes) = bytes

  init_channel : SecureChannelV1 → Bytes × (Bytes × Bytes) → Call out (Unit {0})
  init_channel sc (enc_key, (mac_key, iv)) (cs, w) =
      (ok tt, (record cs { sc = v1_channel (SecureChannelV1.init iv enc_key mac_key sc) }, w))

  open_paired : SecureChannelV1 → Option Pairing → Call out (Unit {0})
  unfolding mutual_authenticate bytes_or_nil init_channel
  open_paired sc none = raise (command_error no_channel_pairing)
  open_paired sc (some p) = do
    resp ← send_plain out (new_command_open_secure_channel p.index (bytes_or_nil sc.public_key))
    keys ← lift (derive_session_keys out.sha512 (bytes_or_nil sc.secret) p.key resp.payload)
    init_channel sc keys
    mutual_authenticate

  open_v1 : SecureChannel → Call out (Unit {0})
  unfolding open_paired
  open_v1 (v1_channel sc) = open_paired sc sc.pairing
  open_v1 (v2_channel sc) = raise (command_error not_v1)

  open_informed : Option ApplicationInfo → SecureChannel → Call out (Unit {0})
  unfolding open_v1
  open_informed none sc = raise (command_error no_application_info)
  open_informed (some info) sc = open_v1 sc

  -- The method OpenSecureChannel.
  unfoldable pub open_secure_channel : Call out (Unit {0})
  unfolding open_informed
  open_secure_channel (cs, w) = open_informed cs.application_info cs.sc (cs, w)
