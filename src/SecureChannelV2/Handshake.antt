-- ===== src/SecureChannelV2/Handshake.antt =====
-- The handshake of secure_channel_v2.go: the card's certificate, the keys, and the signature that the
-- card makes of the transcript. The salt of rand.Read and the key of GenerateKey are parameters.
pub mod Authentication
pub mod Opening
pub mod Trust
pub mod Identity
pub mod Der
pub mod Completes
use keycard_go.Base.{
  ℕ, zero, suc, ◌+◌, ◌-◌, Bool, true, false, not, ◌&&◌, ◌||◌, List, [], ◌∷◌, ◌++◌, ltb, ◌==◌,
  if◌then◌else◌, length, take, drop, Option, none, some, Result, ok, err, tlv, bad_response,
  open_failed, v2, short_handshake, no_identity_key, bad_identity_key, bad_card_key,
  signature_mismatch, not_a_sequence, der_truncated, r_not_integer, s_not_integer,
  bad_scalar_length, no_recovery_id, untrusted_certificate, hkdf_failed, Error,
}
use keycard_go.Base.Bytes.{Bytes, copy_into, bytes_equal}
use keycard_go.Base.Exec.{Exec, raise, lift, on_first, on_second, ◌>>=◌, ◌>>◌}
use keycard_go.Apdu.Command.{Command, new_command}
use keycard_go.Apdu.Response.{Response, sw_ok}
use keycard_go.Constants.Instructions.{ins_open_secure_channel}
use keycard_go.Crypto.Curve.{Curve}
use keycard_go.Tlv.{tlv_ecdsa_template, tlv_int}
use keycard_go.Tlv.Reader.{
  BerTlvReader, new_ber_tlv_reader, next_tag_is, enter_constructed, read_primitive, peek_unread,
}
use keycard_go.Types.Certificate.{Certificate, parse_certificate, padded_32}
use keycard_go.SecureChannelV2.{SecureChannelV2, close, zeroize_keys, zero_nonce}

-- "sc_v2_ccm"
abbrev pub protocol_label : Bytes
protocol_label = 0x73 ∷ 0x63 ∷ 0x5f ∷ 0x76 ∷ 0x32 ∷ 0x5f ∷ 0x63 ∷ 0x63 ∷ 0x6d ∷ []

abbrev pub pubkey_size : ℕ
pubkey_size = 65

abbrev pub scalar_size : ℕ
scalar_size = 32

abbrev pub aes_key_size : ℕ
aes_key_size = 16

abbrev pub okm_size : ℕ
okm_size = 32

-- The loops of isCATrusted and isCardWhitelisted.
unfoldable pub listed : Bytes → List Bytes → Bool
listed key [] = false
listed key (k ∷ keys) = if bytes_equal k key then true else listed key keys

unfoldable pub is_ca_trusted : Bytes → SecureChannelV2 → Bool
is_ca_trusted ca_pub sc = listed ca_pub sc.ca_public_keys

unfoldable pub is_card_whitelisted : Bytes → SecureChannelV2 → Bool
is_card_whitelisted ident_pub sc = listed ident_pub sc.whitelisted_card_keys

trusted_by : Certificate → Exec SecureChannelV2 (Unit {0})
trusted_by cert sc =
    let sc' = record sc { card_ident_pub = some cert.ident_pub } in
    let ca_pub = cert.signature.pub_key in
    let ca_trusted = length ca_pub == 33 && is_ca_trusted ca_pub sc' in
    if not ca_trusted && not (is_card_whitelisted cert.ident_pub sc')
    then (err (v2 untrusted_certificate), sc')
    else (ok tt, sc')

-- bytes.TrimPrefix(content, []byte{0x00})
trim_sign : Bytes → Bytes
trim_sign [] = []
trim_sign (b ∷ rest) = if b == 0 then rest else b ∷ rest

unfoldable pub scalar_from_der_integer : Bytes → Result Bytes
unfolding trim_sign
scalar_from_der_integer raw =
    let content = trim_sign raw in
    if length content == 0 || ltb scalar_size (length content)
    then err (v2 bad_scalar_length)
    else ok (padded_32 content)

-- An error of a call, replaced.
or_fail : {A : Type 0} → Error → Exec BerTlvReader A → Exec BerTlvReader A
or_fail {A} e method r = replaced (method r)
  where
    replaced : Result A × BerTlvReader → Result A × BerTlvReader
    replaced (ok a, r') = (ok a, r')
    replaced (err e', r') = (err e, r')

integers : Exec BerTlvReader (Bytes × Bytes)
unfolding or_fail
integers = do
  r_raw ← or_fail (v2 r_not_integer) (read_primitive tlv_int)
  s_raw ← or_fail (v2 s_not_integer) (read_primitive tlv_int)
  r ← lift (scalar_from_der_integer r_raw)
  s ← lift (scalar_from_der_integer s_raw)
  λ reader. (ok (r, s), reader)

sequence_content : Bytes → ℕ → Result (Bytes × Bytes)
unfolding integers
sequence_content content seq_len =
    if ltb (length content) seq_len
    then err (v2 der_truncated)
    else (integers (new_ber_tlv_reader (take seq_len content))).0

in_sequence : Result ℕ × BerTlvReader → Result (Bytes × Bytes)
unfolding sequence_content
in_sequence (ok seq_len, r) = sequence_content (peek_unread r) seq_len
in_sequence (err e, r) = err (v2 der_truncated)

unfoldable pub parse_der_signature : Bytes → Result (Bytes × Bytes)
unfolding in_sequence
parse_der_signature der_sig =
    let rd = new_ber_tlv_reader der_sig in
    if not (next_tag_is rd tlv_ecdsa_template)
    then err (v2 not_a_sequence)
    else in_sequence (enter_constructed tlv_ecdsa_template rd)

module _ (curve : Curve) where
  with_certificate : Result Certificate → Exec SecureChannelV2 (Unit {0})
  unfolding trusted_by
  with_certificate (ok cert) sc = trusted_by cert sc
  with_certificate (err e) sc = (err e, sc)

  unfoldable pub set_card_certificate : Bytes → Exec SecureChannelV2 (Unit {0})
  unfolding with_certificate
  set_card_certificate cert_data = with_certificate (parse_certificate curve cert_data)

  unfoldable pub transcript_hash : Bytes → Bytes → Bytes → Bytes
  transcript_hash salt client_pub card_pub =
      curve.sha256 (protocol_label ++ (salt ++ (client_pub ++ card_pub)))

  unmarshalled : Bytes → Bytes → Result Bytes → Result Bytes → Result Bytes
  unmarshalled expected recovered later (err e) = later
  unmarshalled expected recovered later (ok key) =
      if bytes_equal recovered expected then ok key else later

  -- The rest of a round; `later` is what the other rounds return.
  recovered_key : Bytes → Result Bytes → Result Bytes → Result Bytes
  unfolding unmarshalled
  recovered_key expected later (err e) = later
  recovered_key expected later (ok recovered) =
      unmarshalled expected recovered later (curve.unmarshal recovered)

  -- `for v := 0; v <= 3; v++`, by the rounds left.
  recovery_loop : ℕ → ℕ → Bytes → Bytes → Bytes → Bytes → Result Bytes
  unfolding recovered_key
  recovery_loop zero v hash r s expected = err (v2 no_recovery_id)
  recovery_loop (suc rounds) v hash r s expected =
      recovered_key expected (recovery_loop rounds (v + 1) hash r s expected)
        (curve.ecrecover hash (copy_into 32 r ++ (copy_into 32 s ++ (v ∷ []))))

  recovery_of : Bytes → Bytes → Result (Bytes × Bytes) → Result Bytes
  unfolding recovery_loop
  recovery_of hash expected (ok (r, s)) = recovery_loop 4 0 hash r s expected
  recovery_of hash expected (err e) = err e

  unfoldable pub verify_signature_by_recovery : Bytes → Bytes → Bytes → Result Bytes
  unfolding recovery_of
  verify_signature_by_recovery hash der_sig expected =
      recovery_of hash expected (parse_der_signature der_sig)

  same_identity : Bytes → Result Bytes → Result (Unit {0})
  same_identity ident (err e) = err e
  same_identity ident (ok recovered) =
      if not (bytes_equal (curve.compress recovered) ident)
      then err (v2 signature_mismatch)
      else ok tt

  signed_by : Bytes → Bytes → Bytes → Result Bytes → Result (Unit {0})
  unfolding same_identity
  signed_by hash signature ident (err e) = err (v2 bad_identity_key)
  signed_by hash signature ident (ok key) =
      same_identity ident (verify_signature_by_recovery hash signature key)

  pub signed_for : Bytes → Bytes → Option Bytes → Result (Unit {0})
  unfolding signed_by
  signed_for hash signature none = err (v2 no_identity_key)
  signed_for hash signature (some ident) = signed_by hash signature ident (curve.decompress ident)

  unfoldable pub verify_card_signature :
      Bytes → Bytes → Bytes → Bytes → SecureChannelV2 → Result (Unit {0})
  unfolding signed_for
  verify_card_signature salt client_pub card_pub signature sc =
      signed_for (transcript_hash salt client_pub card_pub) signature sc.card_ident_pub

  with_keys : Bytes → SecureChannelV2 → SecureChannelV2
  with_keys okm sc = record sc {
    key_h2c = some (copy_into aes_key_size (take aes_key_size okm));
    key_c2h = some (copy_into aes_key_size (drop aes_key_size okm));
  }

  -- After the verification of the card's signature.
  authenticated : Result (Unit {0}) → Exec SecureChannelV2 (Unit {0})
  authenticated (err e) sc = (err e, zeroize_keys sc)
  authenticated (ok done) sc = (ok tt, record sc { nonce_counter = zero_nonce; is_open = true })

  keyed : Bytes → Bytes → Bytes → Bytes → Result Bytes → Exec SecureChannelV2 (Unit {0})
  unfolding with_keys authenticated
  keyed salt client_pub card_pub signature (err e) sc = (err (v2 hkdf_failed), sc)
  keyed salt client_pub card_pub signature (ok okm) sc =
      let sc' = with_keys okm sc in
      authenticated (verify_card_signature salt client_pub card_pub signature sc') sc'

  with_card_key : Bytes → Bytes → Bytes → Result Bytes → Exec SecureChannelV2 (Unit {0})
  unfolding keyed
  with_card_key salt eph_priv signature (err e) sc = (err (v2 bad_card_key), sc)
  with_card_key salt eph_priv signature (ok card_pub) sc =
      keyed salt (curve.public_of eph_priv) card_pub signature
        (curve.hkdf protocol_label salt (curve.shared_x eph_priv card_pub) okm_size) sc

  unfoldable pub process_handshake_response :
      Bytes → Bytes → Bytes → Exec SecureChannelV2 (Unit {0})
  unfolding with_card_key
  process_handshake_response salt eph_priv response sc =
      if ltb (length response) (pubkey_size + 2)
      then (err (v2 short_handshake), sc)
      else with_card_key salt eph_priv (drop pubkey_size response)
          (curve.unmarshal (take pubkey_size response)) sc

  module _ {W : Type 0} (send : Command → Exec W Response) where
    handshake_answer : Bytes → Bytes → Response → Exec SecureChannelV2 (Unit {0})
    handshake_answer salt eph_priv resp =
        if not (resp.sw == sw_ok)
        then raise (bad_response resp.sw open_failed)
        else process_handshake_response salt eph_priv resp.payload

    after_answer : Bytes → Bytes → Result Response → Exec SecureChannelV2 (Unit {0})
    unfolding handshake_answer
    after_answer salt eph_priv (ok resp) = handshake_answer salt eph_priv resp
    after_answer salt eph_priv (err e) = raise e

    open_with : Bytes → Result Bytes → Exec (SecureChannelV2 × W) (Unit {0})
    unfolding after_answer
    open_with salt (err e) state = (err e, state)
    open_with salt (ok eph_priv) (sc, w) =
        let request = salt ++ curve.public_of eph_priv in
        let (answer, w') = send (new_command 0x80 ins_open_secure_channel 0 0 request) w in
        let (result, sc') =
          after_answer salt eph_priv answer (record sc { client_eph_priv_key = some eph_priv }) in
        (result, (sc', w'))

    salted : Result Bytes → Result Bytes → Exec (SecureChannelV2 × W) (Unit {0})
    unfolding open_with
    salted (err e) eph_priv state = (err e, state)
    salted (ok salt) eph_priv state = open_with salt eph_priv state

    unfoldable pub auto_open : Result Bytes → Result Bytes → Exec (SecureChannelV2 × W) (Unit {0})
    unfolding salted
    auto_open salt eph_priv (sc, w) = salted salt eph_priv (close sc, w)
