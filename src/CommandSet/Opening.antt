-- ===== src/CommandSet/Opening.antt =====
-- command_set.go: selecting the applet, initializing it, pairing and opening the secure channel, with
-- the INIT payload of crypto/crypto.go.
pub mod Guard
use keycard_go.Base.{
  ℕ, Bool, false, not, ◌||◌, [], ◌∷◌, ◌++◌, ltb, leb, ◌==◌, if◌then◌else◌, length, Option, none,
  some, Result, ok, err, bad_key, command_error,
}
use keycard_go.Base.Bytes.{Bytes, uint8}
use keycard_go.Base.Exec.{pure, raise, lift, ◌>>=◌, ◌>>◌}
use keycard_go.Apdu.Command.{set_le}
use keycard_go.Commands.{new_command_init}
use keycard_go.CommandSet.{
  CommandSet, SecureChannel, v1_channel, v2_channel, Outside, Call, with_channel, done, send_plain,
  fetched,
}
use keycard_go.Constants.Instructions.{ins_init, ins_identify}
use keycard_go.Crypto.Aes.{Aes}
use keycard_go.Crypto.Curve.{Curve}
use keycard_go.Crypto.Padding.{append_padding}
use keycard_go.GlobalPlatform.Requests.{new_command_select}
use keycard_go.Identifiers.{keycard_instance_aid}
use keycard_go.SecureChannelV1
use keycard_go.SecureChannelV1.Opening as V1
use keycard_go.SecureChannelV1.{SecureChannelV1, new_secure_channel}
use keycard_go.SecureChannelV2.{SecureChannelV2, new_secure_channel_v2}
use keycard_go.SecureChannelV2.Handshake.{set_card_certificate}
use keycard_go.SecureChannelV2.Handshake as V2
use keycard_go.Types.ApplicationInfo.{
  ApplicationInfo, parse_application_info, has_secure_channel_capability, app_version,
}
use keycard_go.Types.Certificate.{verify_identity}

bytes_or_nil : Option Bytes → Bytes
bytes_or_nil none = []
bytes_or_nil (some bytes) = bytes

-- OneShotEncrypt of crypto/crypto.go; `random` is what rand.Read gives for the IV.
unfoldable pub one_shot_encrypt : Aes → Result Bytes → Bytes → Bytes → Bytes → Result Bytes
one_shot_encrypt aes random pub_key_data secret payload = elim random [
  | err e ↦ err e
  | ok iv ↦
      if not (aes.accepts secret)
      then err bad_key
      else ok (
          uint8 (length pub_key_data)
          ∷ (pub_key_data ++ (iv ++ aes.cbc_encrypt secret iv (append_padding 16 payload))))
]

unfoldable pub encrypted_init_payload : Aes → Result Bytes → Bytes → SecureChannelV1 → Result Bytes
unfolding bytes_or_nil
encrypted_init_payload aes random payload sc =
    one_shot_encrypt aes random (bytes_or_nil sc.public_key) (bytes_or_nil sc.secret) payload

has_alt_pin : Option Bytes → Bool
has_alt_pin none = false
has_alt_pin (some alt_pin) = not (length alt_pin == 0)

-- The retry counts and the alternative PIN follow where one of them is given.
unfoldable pub build_init_data : Bytes → Bytes → Bytes → Option Bytes → ℕ → ℕ → Bytes
unfolding has_alt_pin bytes_or_nil
build_init_data pin puk shared_secret alt_pin pin_retries puk_retries =
    pin
    ++ (puk
        ++ (shared_secret
            ++ (if has_alt_pin alt_pin
                then pin_retries ∷ puk_retries ∷ bytes_or_nil alt_pin
                else if not (pin_retries == 0) || not (puk_retries == 0)
                then pin_retries ∷ puk_retries ∷ []
                else [])))

-- GenerateSecret of secure_channel.go, with the private key that GenerateKey gives.
generate_secret : Curve → Bytes → Bytes → SecureChannelV1 → Result SecureChannelV1
generate_secret curve key card_pub_key sc = elim (curve.unmarshal card_pub_key) [
  | err e ↦ err e
  | ok card_pub ↦ ok (record sc {
    public_key = some (curve.public_of key);
    secret = some (curve.shared_x key card_pub);
  })
]

module _ {W : Type 0} (out : Outside W) where
  use_channel : SecureChannel → Call out (Unit {0})
  use_channel sc (cs, w) = (ok tt, (record cs { sc = sc }, w))

  certified : Result (Unit {0}) × SecureChannelV2 → Call out (Unit {0})
  unfolding use_channel
  certified (ok done, sc) = use_channel (v2_channel sc)
  certified (err e, sc) = raise e

  -- The certificate that the card sent, if it sent one.
  with_certificate : Bytes → SecureChannelV2 → Result (Unit {0}) × SecureChannelV2
  with_certificate cert sc =
      if ltb 0 (length cert) then set_card_certificate out.curve cert sc else (ok tt, sc)

  choose_channel : Result Bytes → ApplicationInfo → Call out (Unit {0})
  unfolding certified with_certificate generate_secret bytes_or_nil
  choose_channel random info (cs, w) =
      if not (has_secure_channel_capability info)
      then (ok tt, (cs, w))
      else if leb 0x0400 (app_version info)
      then certified
          (with_certificate (bytes_or_nil info.cert_data)
            (new_secure_channel_v2 cs.ca_public_keys cs.whitelisted_keys))
          (cs, w)
      else ((do
        key ← lift random
        sc ← lift (
            generate_secret out.curve key (bytes_or_nil info.secure_channel_public_key)
              new_secure_channel)
        use_channel (v1_channel (SecureChannelV1.reset sc)))
          (cs, w))

  remember : ApplicationInfo → Call out (Unit {0})
  remember info (cs, w) = (ok tt, (record cs { application_info = some info }, w))

  -- `random` is the private key that GenerateKey gives, or its error.
  unfoldable pub select_with_index : Result Bytes → ℕ → Call out (Unit {0})
  unfolding choose_channel remember
  select_with_index random instance_idx = do
    aid ← lift (keycard_instance_aid instance_idx)
    resp ← send_plain out (set_le 0 (new_command_select aid))
    info ← lift (parse_application_info resp.payload)
    remember info
    choose_channel random info

  abbrev pub select : Result Bytes → Call out (Unit {0})
  select random = select_with_index random 1

  open_by :
      Result Bytes
      → Result Bytes
      → SecureChannel
      → CommandSet
      → W
      → Result (Unit {0}) × (CommandSet × W)
  open_by random key (v1_channel sc) cs w =
      with_channel cs v1_channel (V1.auto_open out.aes out.send out.sha512 random (sc, w))
  open_by random key (v2_channel sc) cs w =
      with_channel cs v2_channel (V2.auto_open out.curve out.send random key (sc, w))

  -- `random` is the challenge or the salt, `key` the private key of GenerateKey.
  unfoldable pub auto_open_secure_channel : Result Bytes → Result Bytes → Call out (Unit {0})
  unfolding open_by
  auto_open_secure_channel random key (cs, w) = open_by random key cs.sc cs w

  init_by : Result Bytes → Result Bytes → Bytes → SecureChannel → Call out (Unit {0})
  init_by random key payload (v1_channel sc) = do
    encrypted ← lift (encrypted_init_payload out.aes random payload sc)
    send_plain out (new_command_init encrypted)
    pure tt
  init_by random key payload (v2_channel sc) = do
    auto_open_secure_channel random key
    done out ins_init 0 0 payload

  -- Of the three secrets. On V1, OneShotEncrypt encrypts the same bytes.
  unfoldable pub init : Result Bytes → Result Bytes → Bytes → Bytes → Bytes → Call out (Unit {0})
  unfolding init_by
  init random key pin puk token (cs, w) =
      init_by random key (build_init_data pin puk token none 0 0) cs.sc (cs, w)

  unfoldable pub init_inner :
      Result Bytes
      → Result Bytes
      → Bytes
      → Option Bytes
      → Bytes
      → Bytes
      → ℕ
      → ℕ
      → Call out (Unit {0})
  unfolding init_by
  init_inner random key pin alt_pin puk shared_secret pin_retries puk_retries (cs, w) =
      init_by random key (build_init_data pin puk shared_secret alt_pin pin_retries puk_retries)
        cs.sc (cs, w)

  abbrev pub init_with_secret :
      Result Bytes → Result Bytes → Bytes → Bytes → Bytes → Call out (Unit {0})
  init_with_secret random key pin puk shared_secret =
      init_inner random key pin none puk shared_secret 0 0

  abbrev pub init_v2 : Result Bytes → Result Bytes → Bytes → Bytes → Call out (Unit {0})
  init_v2 random key pin puk = init_inner random key pin none puk [] 0 0

  abbrev pub init_with_options_v2 :
      Result Bytes → Result Bytes → Bytes → Bytes → Bytes → ℕ → ℕ → Call out (Unit {0})
  init_with_options_v2 random key pin alt_pin puk pin_retries puk_retries =
      init_inner random key pin (some alt_pin) puk [] pin_retries puk_retries

  abbrev pub init_with_options :
      Result Bytes → Result Bytes → Bytes → Bytes → Bytes → Bytes → ℕ → ℕ → Call out (Unit {0})
  init_with_options random key pin alt_pin puk pairing_pass pin_retries puk_retries =
      init_inner random key pin (some alt_pin) puk (out.pairing_token pairing_pass) pin_retries
        puk_retries

  unfoldable pub identify : Result Bytes → Call out Bytes
  identify random = do
    challenge ← lift random
    payload ← fetched out ins_identify 0 0 challenge
    lift (verify_identity out.curve challenge payload)
