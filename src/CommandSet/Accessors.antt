-- ===== src/CommandSet/Accessors.antt =====
-- command_set.go, secure_channel.go and secure_channel_v2.go: the constructors with one CA key, and
-- what a program may ask of a CommandSet and its channel.
use keycard_go.Base.{
  ℕ, Bool, true, false, [], ◌∷◌, ◌++◌, if◌then◌else◌, Option, none, some, Result, v2,
  pairing_unsupported, not_separate,
}
use keycard_go.Base.Bytes.{Bytes}
use keycard_go.Base.Exec.{Exec, raise, on_second}
use keycard_go.Apdu.Command.{Command, new_command}
use keycard_go.Apdu.Response.{Response}
use keycard_go.CommandSet.{
  CommandSet, SecureChannel, v1_channel, v2_channel, new_command_set_with_cas,
}
use keycard_go.CommandSet.Opening.{encrypted_init_payload}
use keycard_go.Constants.Instructions.{ins_open_secure_channel}
use keycard_go.Crypto.Aes.{Aes}
use keycard_go.Secrets.{Secrets}
use keycard_go.SecureChannelV1.{SecureChannelV1}
use keycard_go.SecureChannelV2.{SecureChannelV2, new_secure_channel_v2, close}
use keycard_go.Types.ApplicationInfo.{ApplicationInfo, has_secure_channel_capability}
use keycard_go.Types.Pairing.{Pairing}

pub data SecureChannelVersion : Type 0 where
  version_v1 version_v2 : SecureChannelVersion

unfoldable pub new_command_set_with_ca : Bytes → CommandSet
new_command_set_with_ca ca_public_key = new_command_set_with_cas (ca_public_key ∷ []) []

unfoldable pub new_secure_channel_v2_with_ca : Bytes → SecureChannelV2
new_secure_channel_v2_with_ca ca_public_key = new_secure_channel_v2 (ca_public_key ∷ []) []

-- The method Version of the channels.
unfoldable pub channel_version : SecureChannel → SecureChannelVersion
channel_version (v1_channel sc) = version_v1
channel_version (v2_channel sc) = version_v2

-- The method Pairing of the channels, and of the CommandSet.
unfoldable pub channel_pairing : SecureChannel → Option Pairing
channel_pairing (v1_channel sc) = sc.pairing
channel_pairing (v2_channel sc) = none

unfoldable pub pairing_of : CommandSet → Option Pairing
pairing_of cs = channel_pairing cs.sc

-- The method IsOpen of the channels.
unfoldable pub channel_is_open : SecureChannel → Bool
channel_is_open (v1_channel sc) = sc.is_open
channel_is_open (v2_channel sc) = sc.is_open

version_if_able : Option ApplicationInfo → SecureChannel → SecureChannelVersion × Bool
unfolding channel_version
version_if_able none sc = (version_v1, false)
version_if_able (some info) sc =
    if has_secure_channel_capability info then (channel_version sc, true) else (version_v1, false)

unfoldable pub secure_channel_version : CommandSet → SecureChannelVersion × Bool
unfolding version_if_able
secure_channel_version cs = version_if_able cs.application_info cs.sc

unfoldable pub app_info : CommandSet → Option ApplicationInfo
app_info cs = cs.application_info

-- OneShotEncrypt of a V1 channel, with the IV of rand.Read.
unfoldable pub one_shot_encrypt_secrets :
    Aes → Result Bytes → Secrets → SecureChannelV1 → Result Bytes
one_shot_encrypt_secrets aes random secrets sc =
    encrypted_init_payload aes random (secrets.pin ++ (secrets.puk ++ secrets.pairing_token)) sc

-- What the V2 channel does not do.
module _ {W : Type 0} where
  unfoldable pub v2_auto_pair : ℕ → Bytes → Exec (SecureChannelV2 × W) (Unit {0})
  v2_auto_pair mode shared_secret = raise (v2 pairing_unsupported)

  unfoldable pub v2_auto_unpair : Exec (SecureChannelV2 × W) (Unit {0})
  v2_auto_unpair = raise (v2 pairing_unsupported)

  unfoldable pub v2_unpair_others : Exec (SecureChannelV2 × W) (Unit {0})
  v2_unpair_others = raise (v2 pairing_unsupported)

  unfoldable pub v2_mutually_authenticate : Exec (SecureChannelV2 × W) Response
  v2_mutually_authenticate = raise (v2 not_separate)

  unfoldable pub v2_pair : ℕ → ℕ → Bytes → Exec (SecureChannelV2 × W) Response
  v2_pair p1 p2 payload = raise (v2 pairing_unsupported)

  unfoldable pub v2_unpair : ℕ → Exec (SecureChannelV2 × W) Response
  v2_unpair p1 = raise (v2 pairing_unsupported)

  unfoldable pub v2_open_secure_channel :
      (Command → Exec W Response) → ℕ → Bytes → Exec (SecureChannelV2 × W) Response
  v2_open_secure_channel send index payload (sc, w) =
      on_second (send (new_command 0x80 ins_open_secure_channel 0 0 payload)) (close sc, w)
