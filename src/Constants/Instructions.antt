-- ===== src/Constants/Instructions.antt =====
-- The INS codes of constants.go. The one of the wrapper of Secure Channel V2 stands with the channel.
use keycard_go.Base.{ℕ}

abbrev pub ins_init : ℕ
ins_init = 0xfe

abbrev pub ins_factory_reset : ℕ
ins_factory_reset = 0xfd

abbrev pub ins_get_status : ℕ
ins_get_status = 0xf2

abbrev pub ins_set_ndef : ℕ
ins_set_ndef = 0xf3

abbrev pub ins_identify : ℕ
ins_identify = 0x14

abbrev pub ins_verify_pin : ℕ
ins_verify_pin = 0x20

abbrev pub ins_change_pin : ℕ
ins_change_pin = 0x21

abbrev pub ins_unblock_pin : ℕ
ins_unblock_pin = 0x22

abbrev pub ins_load_key : ℕ
ins_load_key = 0xd0

abbrev pub ins_derive_key : ℕ
ins_derive_key = 0xd1

abbrev pub ins_generate_mnemonic : ℕ
ins_generate_mnemonic = 0xd2

abbrev pub ins_remove_key : ℕ
ins_remove_key = 0xd3

abbrev pub ins_generate_key : ℕ
ins_generate_key = 0xd4

abbrev pub ins_sign : ℕ
ins_sign = 0xc0

abbrev pub ins_set_pinless_path : ℕ
ins_set_pinless_path = 0xc1

abbrev pub ins_export_key : ℕ
ins_export_key = 0xc2

abbrev pub ins_export_lee : ℕ
ins_export_lee = 0xc3

abbrev pub ins_export_bip85 : ℕ
ins_export_bip85 = 0xc4

abbrev pub ins_ecdh : ℕ
ins_ecdh = 0xc5

abbrev pub ins_get_data : ℕ
ins_get_data = 0xca

abbrev pub ins_store_data : ℕ
ins_store_data = 0xe2

abbrev pub ins_get_challenge : ℕ
ins_get_challenge = 0x84

abbrev pub ins_open_secure_channel : ℕ
ins_open_secure_channel = 0x10

abbrev pub ins_mutually_authenticate : ℕ
ins_mutually_authenticate = 0x11

abbrev pub ins_pair : ℕ
ins_pair = 0x12

abbrev pub ins_unpair : ℕ
ins_unpair = 0x13
