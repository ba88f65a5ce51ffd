-- ===== src/Commands.antt =====
-- commands.go: the commands that take no derivation path; the others are in Paths. A string is its bytes.
pub mod Requests
pub mod Paths
use keycard_go.Base.{ℕ, ◌/◌, Bool, [], ◌++◌, if◌then◌else◌}
use keycard_go.Base.Bytes.{Bytes, uint8}
use keycard_go.Apdu.Command.{Command, new_command}
use keycard_go.Constants.Instructions.{
  ins_change_pin, ins_export_bip85, ins_export_lee, ins_factory_reset, ins_generate_key,
  ins_generate_mnemonic, ins_get_challenge, ins_get_data, ins_get_status, ins_identify, ins_init,
  ins_load_key, ins_mutually_authenticate, ins_open_secure_channel, ins_pair, ins_remove_key,
  ins_store_data, ins_unblock_pin, ins_unpair, ins_verify_pin,
}
use keycard_go.Constants.Parameters.{
  p1_change_pin_pairing_secret, p1_change_pin_pin, p1_change_pin_puk, p1_factory_reset_magic,
  p1_load_key_ec, p1_load_key_ec_extended, p1_load_key_lee, p1_load_key_seed, p1_pairing_final_step,
  p1_pairing_first_step, p2_factory_reset_magic,
}

abbrev pub cla_gp : ℕ
cla_gp = 0x80

unfoldable pub new_command_init : Bytes → Command
new_command_init payload = new_command cla_gp ins_init 0 0 payload

unfoldable pub new_command_pair_first_step : Bytes → Command
new_command_pair_first_step challenge =
    new_command cla_gp ins_pair p1_pairing_first_step 0 challenge

unfoldable pub new_command_pair_final_step : Bytes → Command
new_command_pair_final_step cryptogram_hash =
    new_command cla_gp ins_pair p1_pairing_final_step 0 cryptogram_hash

unfoldable pub new_command_unpair : ℕ → Command
new_command_unpair index = new_command cla_gp ins_unpair index 0 []

unfoldable pub new_command_identify : Bytes → Command
new_command_identify challenge = new_command cla_gp ins_identify 0 0 challenge

unfoldable pub new_command_open_secure_channel : ℕ → Bytes → Command
new_command_open_secure_channel pairing_index pub_key =
    new_command cla_gp ins_open_secure_channel pairing_index 0 pub_key

unfoldable pub new_command_mutually_authenticate : Bytes → Command
new_command_mutually_authenticate payload = new_command cla_gp ins_mutually_authenticate 0 0 payload

unfoldable pub new_command_get_status : ℕ → Command
new_command_get_status p1 = new_command cla_gp ins_get_status p1 0 []

unfoldable pub new_command_generate_key : Command
new_command_generate_key = new_command cla_gp ins_generate_key 0 0 []

unfoldable pub new_command_generate_mnemonic : ℕ → Command
new_command_generate_mnemonic checksum_size =
    new_command cla_gp ins_generate_mnemonic checksum_size 0 []

unfoldable pub new_command_remove_key : Command
new_command_remove_key = new_command cla_gp ins_remove_key 0 0 []

unfoldable pub new_command_verify_pin : Bytes → Command
new_command_verify_pin pin = new_command cla_gp ins_verify_pin 0 0 pin

unfoldable pub new_command_change_pin : Bytes → Command
new_command_change_pin pin = new_command cla_gp ins_change_pin p1_change_pin_pin 0 pin

unfoldable pub new_command_unblock_pin : Bytes → Bytes → Command
new_command_unblock_pin puk new_pin = new_command cla_gp ins_unblock_pin 0 0 (puk ++ new_pin)

unfoldable pub new_command_change_puk : Bytes → Command
new_command_change_puk puk = new_command cla_gp ins_change_pin p1_change_pin_puk 0 puk

unfoldable pub new_command_change_pairing_secret : Bytes → Command
new_command_change_pairing_secret secret =
    new_command cla_gp ins_change_pin p1_change_pin_pairing_secret 0 secret

unfoldable pub new_command_load_seed : Bytes → Command
new_command_load_seed seed = new_command cla_gp ins_load_key p1_load_key_seed 0 seed

unfoldable pub new_command_load_lee_key : Bytes → Command
new_command_load_lee_key seed = new_command cla_gp ins_load_key p1_load_key_lee 0 seed

unfoldable pub new_command_load_key_bip32 : Bool → Bytes → Command
new_command_load_key_bip32 include_public key_tlv =
    new_command cla_gp ins_load_key
      (if include_public then p1_load_key_ec_extended else p1_load_key_ec) 0 key_tlv

unfoldable pub new_command_export_lee : ℕ → Bytes → Command
new_command_export_lee source path = new_command cla_gp ins_export_lee source 0 path

unfoldable pub new_command_export_bip85 : ℕ → Bytes → Command
new_command_export_bip85 length path = new_command cla_gp ins_export_bip85 length 0 path

unfoldable pub new_command_get_data : ℕ → Command
new_command_get_data typ = new_command cla_gp ins_get_data typ 0 []

unfoldable pub new_command_store_data : ℕ → Bytes → Command
new_command_store_data typ payload = new_command cla_gp ins_store_data typ 0 payload

unfoldable pub new_command_store_data_with_offset : ℕ → Bytes → ℕ → Command
new_command_store_data_with_offset typ payload offset =
    new_command cla_gp ins_store_data typ (uint8 (offset / 4)) payload

unfoldable pub new_command_get_challenge : ℕ → Command
new_command_get_challenge length = new_command cla_gp ins_get_challenge length 0 []

unfoldable pub new_command_factory_reset : Command
new_command_factory_reset =
    new_command cla_gp ins_factory_reset p1_factory_reset_magic p2_factory_reset_magic []
