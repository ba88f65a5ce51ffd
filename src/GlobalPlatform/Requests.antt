-- ===== src/GlobalPlatform/Requests.antt =====
-- globalplatform/commands.go, and the encoding of the files in globalplatform/load.go.
use keycard_go.Base.{
  ℕ, ◌/◌, List, [], ◌∷◌, ◌++◌, ltb, if◌then◌else◌, length, bit_or, Option, none, some,
}
use keycard_go.Base.Bytes.{Bytes, uint8}
use keycard_go.Apdu.Command.{Command, new_command, set_le}
use keycard_go.GlobalPlatform.Des.{Des, append_des_padding, mac_3des, null_bytes_8}

abbrev pub new_command_select : Bytes → Command
new_command_select aid = new_command 0x00 0xa4 0x04 0 aid

abbrev pub new_command_initialize_update : Bytes → Command
new_command_initialize_update challenge = set_le 0x00 (new_command 0x80 0x50 0 0 challenge)

unfoldable pub calculate_host_cryptogram : Des → Bytes → Bytes → Bytes → Bytes
calculate_host_cryptogram des enc_key card_challenge host_challenge =
    mac_3des des enc_key (append_des_padding (card_challenge ++ host_challenge)) null_bytes_8

unfoldable pub new_command_external_authenticate : Des → Bytes → Bytes → Bytes → Command
new_command_external_authenticate des enc_key card_challenge host_challenge =
    new_command 0x84 0x82 0x01 0
      (calculate_host_cryptogram des enc_key card_challenge host_challenge)

abbrev pub new_command_get_response : ℕ → Command
new_command_get_response length = set_le length (new_command 0x00 0xc0 0 0 [])

-- A length of one byte, and the bytes.
abbrev pub counted : Bytes → Bytes
counted bytes = uint8 (length bytes) ∷ bytes

abbrev pub tagged : ℕ → Bytes → Bytes
tagged tag bytes = tag ∷ counted bytes

abbrev pub new_command_delete : Bytes → ℕ → Command
new_command_delete aid p2 = new_command 0x80 0xe4 0 p2 (tagged 0x4f aid)

abbrev pub new_command_install_for_load : Bytes → Bytes → Command
new_command_install_for_load aid sdaid =
    new_command 0x80 0xe6 0x02 0 (counted aid ++ (counted sdaid ++ (0x00 ∷ 0x00 ∷ 0x00 ∷ [])))

abbrev pub new_command_install_for_install : Bytes → Bytes → Bytes → Bytes → Command
new_command_install_for_install pkg_aid applet_aid instance_aid params =
    new_command 0x80 0xe6 (bit_or 0x04 0x08) 0 (
      counted pkg_aid
      ++ (counted applet_aid
          ++ (counted instance_aid
              ++ (counted (0x00 ∷ []) ++ (counted (tagged 0xc9 params) ++ (0x00 ∷ []))))))

abbrev pub new_command_get_status : Bytes → ℕ → Command
new_command_get_status aid p1 = new_command 0x80 0xf2 p1 0x02 (tagged 0x4f aid)

-- The names of `internalFiles`, in their order.
pub data InternalFile : Type 0 where
  header directory imports applet class method static_field export constant_pool ref_location :
      InternalFile

abbrev pub internal_files : List InternalFile
internal_files =
    header ∷ directory ∷ imports ∷ applet ∷ class ∷ method ∷ static_field ∷ export ∷ constant_pool
    ∷ ref_location ∷ []

unfoldable pub encode_length : ℕ → Bytes
encode_length size =
    if ltb size 0x80
    then uint8 size ∷ []
    else if ltb size 0xff
    then 0x81 ∷ uint8 size ∷ []
    else if ltb size 0xffff
    then 0x82 ∷ uint8 (size / 0x100) ∷ uint8 size ∷ []
    else 0x83 ∷ uint8 (size / 0x10000) ∷ uint8 (size / 0x100) ∷ uint8 size ∷ []

file_bytes : Option Bytes → Bytes
file_bytes none = []
file_bytes (some bytes) = bytes

-- The files are a map from names.
files_data : (InternalFile → Option Bytes) → List InternalFile → Bytes
unfolding file_bytes
files_data files [] = []
files_data files (name ∷ names) = file_bytes (files name) ++ files_data files names

unfoldable pub encode_files_data : (InternalFile → Option Bytes) → Bytes
unfolding files_data
encode_files_data files =
    let content = files_data files internal_files in
    0xc4 ∷ (encode_length (length content) ++ content)
