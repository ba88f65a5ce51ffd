-- ===== src/Tlv/Tags.antt =====
-- The tag constants of tlv/tlv.go.
use Prim.Native.Nat.{ℕ}

abbrev pub tlv_bool : ℕ
tlv_bool = 0x01

abbrev pub tlv_int : ℕ
tlv_int = 0x02

abbrev pub tlv_ecdsa_template : ℕ
tlv_ecdsa_template = 0x30

abbrev pub tlv_signature_template : ℕ
tlv_signature_template = 0xa0

abbrev pub tlv_key_template : ℕ
tlv_key_template = 0xa1

abbrev pub tlv_application_status_template : ℕ
tlv_application_status_template = 0xa3

abbrev pub tlv_application_info_template : ℕ
tlv_application_info_template = 0xa4

abbrev pub tlv_pub_key : ℕ
tlv_pub_key = 0x80

abbrev pub tlv_priv_key : ℕ
tlv_priv_key = 0x81

abbrev pub tlv_chain_code : ℕ
tlv_chain_code = 0x82

abbrev pub tlv_lee_nsk : ℕ
tlv_lee_nsk = 0x83

abbrev pub tlv_lee_ask : ℕ
tlv_lee_ask = 0x84

abbrev pub tlv_lee_vsk_d : ℕ
tlv_lee_vsk_d = 0x85

abbrev pub tlv_lee_vsk_z : ℕ
tlv_lee_vsk_z = 0x86

abbrev pub tlv_cert : ℕ
tlv_cert = 0x8a

abbrev pub tlv_capabilities : ℕ
tlv_capabilities = 0x8d

abbrev pub tlv_key_uid : ℕ
tlv_key_uid = 0x8e

abbrev pub tlv_uid : ℕ
tlv_uid = 0x8f

abbrev pub tlv_status : ℕ
tlv_status = 0x8c

abbrev pub tlv_pub_data : ℕ
tlv_pub_data = 0x82
