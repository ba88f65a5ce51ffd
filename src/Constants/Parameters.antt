-- ===== src/Constants/Parameters.antt =====
-- The values of P1 and P2 in constants.go.
use keycard_go.Base.{ℕ}

abbrev pub p1_change_pin_pin : ℕ
p1_change_pin_pin = 0x00

abbrev pub p1_change_pin_puk : ℕ
p1_change_pin_puk = 0x01

abbrev pub p1_change_pin_pairing_secret : ℕ
p1_change_pin_pairing_secret = 0x02

abbrev pub p1_get_status_application : ℕ
p1_get_status_application = 0x00

abbrev pub p1_get_status_key_path : ℕ
p1_get_status_key_path = 0x01

abbrev pub p1_load_key_ec : ℕ
p1_load_key_ec = 0x01

abbrev pub p1_load_key_ec_extended : ℕ
p1_load_key_ec_extended = 0x02

abbrev pub p1_load_key_seed : ℕ
p1_load_key_seed = 0x03

abbrev pub p1_load_key_lee : ℕ
p1_load_key_lee = 0x04

abbrev pub p1_derive_key_from_master : ℕ
p1_derive_key_from_master = 0x00

abbrev pub p1_derive_key_from_parent : ℕ
p1_derive_key_from_parent = 0x40

abbrev pub p1_derive_key_from_current : ℕ
p1_derive_key_from_current = 0x80

abbrev pub p1_sign_current_key : ℕ
p1_sign_current_key = 0x00

abbrev pub p1_sign_derive : ℕ
p1_sign_derive = 0x01

abbrev pub p1_sign_derive_and_make_current : ℕ
p1_sign_derive_and_make_current = 0x02

abbrev pub p1_sign_pinless : ℕ
p1_sign_pinless = 0x03

abbrev pub p2_sign_ecdsa : ℕ
p2_sign_ecdsa = 0x00

abbrev pub p2_sign_eddsa_ed25519 : ℕ
p2_sign_eddsa_ed25519 = 0x01

abbrev pub p2_sign_bls12_381 : ℕ
p2_sign_bls12_381 = 0x02

abbrev pub p2_sign_bip340_schnorr : ℕ
p2_sign_bip340_schnorr = 0x03

abbrev pub p1_store_data_public : ℕ
p1_store_data_public = 0x00

abbrev pub p1_store_data_ndef : ℕ
p1_store_data_ndef = 0x01

abbrev pub p1_store_data_cash : ℕ
p1_store_data_cash = 0x02

abbrev pub p1_export_key_current : ℕ
p1_export_key_current = 0x00

abbrev pub p1_export_key_derive : ℕ
p1_export_key_derive = 0x01

abbrev pub p1_export_key_derive_and_make_current : ℕ
p1_export_key_derive_and_make_current = 0x02

abbrev pub p2_export_key_private_and_public : ℕ
p2_export_key_private_and_public = 0x00

abbrev pub p2_export_key_public_only : ℕ
p2_export_key_public_only = 0x01

abbrev pub p2_export_key_extended_public : ℕ
p2_export_key_extended_public = 0x02

abbrev pub p2_ecdh_raw_secret : ℕ
p2_ecdh_raw_secret = 0x00

abbrev pub p1_pairing_first_step : ℕ
p1_pairing_first_step = 0x00

abbrev pub p1_pairing_final_step : ℕ
p1_pairing_final_step = 0x01

abbrev pub p2_pair_any : ℕ
p2_pair_any = 0x00

abbrev pub p2_pair_ephemeral : ℕ
p2_pair_ephemeral = 0x01

abbrev pub p2_pair_persistent : ℕ
p2_pair_persistent = 0x02

abbrev pub p1_factory_reset_magic : ℕ
p1_factory_reset_magic = 0xaa

abbrev pub p2_factory_reset_magic : ℕ
p2_factory_reset_magic = 0x55

abbrev pub p1_generate_mnemonic_words12 : ℕ
p1_generate_mnemonic_words12 = 0x04

abbrev pub p1_generate_mnemonic_words15 : ℕ
p1_generate_mnemonic_words15 = 0x05

abbrev pub p1_generate_mnemonic_words18 : ℕ
p1_generate_mnemonic_words18 = 0x06

abbrev pub p1_generate_mnemonic_words21 : ℕ
p1_generate_mnemonic_words21 = 0x07

abbrev pub p1_generate_mnemonic_words24 : ℕ
p1_generate_mnemonic_words24 = 0x08

abbrev pub ndef_max_chunk_size : ℕ
ndef_max_chunk_size = 220

abbrev pub uncompressed_point_tag : ℕ
uncompressed_point_tag = 0x04

abbrev pub secp256k1_uncompressed_pub_key_size : ℕ
secp256k1_uncompressed_pub_key_size = 65

abbrev pub sw_no_available_pairing_slots : ℕ
sw_no_available_pairing_slots = 0x6a84
