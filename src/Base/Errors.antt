-- ===== src/Base/Errors.antt =====
-- The errors that the Go functions return, one constructor for each message, grouped by package.
use Prim.Native.Nat.{ℕ}

pub data TlvError : Type 0 where
  no_tag no_length indefinite_length length_too_long length_truncated : TlvError
  unexpected_tag value_truncated skip_truncated bad_boolean bad_integer : TlvError

-- The messages of apdu.NewErrBadResponse.
pub data BadResponse : Type 0 where
  unexpected_status_word not_one_of unexpected_response authentication_failed : BadResponse
  open_failed mutual_authentication_failed pair_first_failed pair_final_failed : BadResponse
  gp_security gp_blocked gp_length : BadResponse

pub data CcmError : Type 0 where
  nonce_length plaintext_too_long ciphertext_too_short authentication bad_key_length : CcmError

-- secure_channel_v2.go
pub data V2Error : Type 0 where
  payload_too_large no_host_key no_card_key encryption_failed decryption_failed : V2Error
  short_handshake bad_card_key no_identity_key bad_identity_key signature_mismatch : V2Error
  not_a_sequence der_truncated r_not_integer s_not_integer bad_scalar_length : V2Error
  no_recovery_id untrusted_certificate pairing_unsupported not_separate hkdf_failed : V2Error

-- types/metadata.go
pub data MetadataError : Type 0 where
  empty bad_version name_truncated count_too_large total_too_large name_too_long : MetadataError

-- secure_channel.go
pub data V1Error : Type 0 where
  closed_after_error no_session_key protected_too_large response_too_short : V1Error
  cbc_decryption_failed invalid_mac no_secret no_pairing : V1Error
  no_public_key bad_authentication_data pairing_response_too_short invalid_cryptogram : V1Error

-- derivationpath/decoder.go and derivationpath/keypath.go; `end_of_text` is io.EOF.
pub data PathError : Type 0 where
  end_of_text expected_number_at_end bad_number : PathError
  expected_separator expected_number index_too_large : ℕ → PathError
  empty_path too_many_components empty_component signed_component : PathError
  not_absolute : PathError

-- The parsers of the package types other than the metadata.
pub data ParseError : Type 0 where
  wrong_template empty_status empty_capabilities trailing_data empty_input bad_hex : ParseError
  lee_secret_length life_cycle_length pairing_too_short bad_private_key : ParseError
  no_signature bad_signature_length no_der_signature schnorr_length recovery_failed : ParseError
  bad_recovery_id bad_component_length certificate_too_short signature_too_short : ParseError
  bad_identity_signature no_private_key : ParseError

-- command_set.go
pub data CommandError : Type 0 where
  no_pairing_slots bad_checksum_size bad_data_length bad_hash_length : CommandError
  bad_tweak_length bad_peer_key not_master_path : CommandError
  no_application_info not_v1 no_channel_pairing bad_cryptogram instance_index : CommandError

-- types/mnemonic.go
pub data MnemonicError : Type 0 where
  empty_mnemonic bad_word_count bad_word bad_word_index checksum_mismatch : MnemonicError

-- globalplatform
pub data GpError : Type 0 where
  bad_scp_version bad_card_cryptogram not_open no_session : GpError

pub data Error : Type 0 where
  gp : GpError → Error
  mnemonic : MnemonicError → Error
  parsing : ParseError → Error
  command_error : CommandError → Error
  path : PathError → Error
  -- "at position %d, ..."
  path_at : ℕ → PathError → Error
  v1 : V1Error → Error
  metadata : MetadataError → Error
  -- a model ran out of rounds; theorems say that it does not
  out_of_rounds : Error
  v2 : V2Error → Error
  tlv : TlvError → Error
  ccm : CcmError → Error
  bad_raw_command bad_raw_response : Error
  bad_response : ℕ → BadResponse → Error
  wrong_pin wrong_puk : ℕ → Error
  -- an error of the transport, or of code that the repository does not hold
  transport : ℕ → Error
  bad_key bad_iv bad_ciphertext bad_session_data mac_too_short : Error

pub data Result {ℓ} (A : Type ℓ) : Type ℓ where
  ok : A → Result A
  err : Error → Result A
