-- ===== src/Tests/Parsers.antt =====
-- The parsers of the package types on concrete data.
use keycard_go.Base.{
  inl, inr, ℕ, suc, zero, ◌≡◌, refl, [], ◌∷◌, ◌++◌, arith, true, none, some, ok, Option,
}
use keycard_go.Base.Bytes.{Bytes}
use keycard_go.Tlv.Length.{encode_ber_length}
use keycard_go.Tlv.Writer.{integer_bytes}
use keycard_go.Tlv.Writer.Output.{primitive}
use keycard_go.Types.ApplicationInfo.{parse_application_info}
use keycard_go.Types.ApplicationInfo.Fields.{
  Answer, IsAnswer, answer_fields, info_of, parse_application_info_lem,
}
use keycard_go.Types.Keys.{LeeKey, bip32_key_pair_from_tlv, to_tlv}
use keycard_go.Types.Keys.RoundTrip.{stored_key, bip32_key_pair_from_tlv-to_tlv}
use keycard_go.Types.Signature.{der_signature_to_rs}
use keycard_go.Types.Signature.Recovery.{der_signature_to_rs_lem}

abbrev bytes_of : ℕ → ℕ → Bytes
bytes_of zero b = []
bytes_of (suc count) b = b ∷ bytes_of count b

-- Version 3.1, five free slots, no certificate.
abbrev answer : Answer
answer = record {
  uid = some (bytes_of 16 1);
  pub_key = some (4 ∷ bytes_of 64 2);
  version = 0x0301;
  status = none;
  slots = some 5;
  key_uid = bytes_of 32 3;
  capabilities = some 3;
  cert = none;
}

answer-IsAnswer : IsAnswer answer
unfolding encode_ber_length integer_bytes
answer-IsAnswer = record {
  short_uid = omega arith;
  short_pub_key = omega arith;
  small_version = omega arith;
  small_slots = omega arith;
  short_key_uid = omega arith;
  short_cert = tt;
  short_fields = omega arith;
}

parse_application_info_lem_example :
    parse_application_info (primitive 0xa4 (answer_fields answer)) ≡ ok (info_of answer)
parse_application_info_lem_example = parse_application_info_lem answer answer-IsAnswer

abbrev lee : LeeKey
lee = record {
  ask = bytes_of 32 1;
  nsk = bytes_of 32 2;
  vsk_d = bytes_of 32 3;
  vsk_z = bytes_of 32 4;
}

abbrev private_bytes : Bytes
private_bytes = bytes_of 32 7

abbrev public_bytes : Bytes
public_bytes = 2 ∷ bytes_of 32 8

abbrev chain_bytes : Option Bytes
chain_bytes = some (bytes_of 32 9)

bip32_key_pair_from_tlv-to_tlv_example :
    bip32_key_pair_from_tlv
      (λ private_key. public_bytes)
      (to_tlv true (
        stored_key private_bytes public_bytes chain_bytes
          (omega arith)
          (omega arith)
          (omega arith)
          refl))
    ≡ ok (
        stored_key private_bytes public_bytes chain_bytes
          (omega arith)
          (omega arith)
          (omega arith)
          refl)
bip32_key_pair_from_tlv-to_tlv_example =
    bip32_key_pair_from_tlv-to_tlv private_bytes public_bytes chain_bytes (omega arith)
      (omega arith) (omega arith) refl (λ private_key. public_bytes)

-- An r of 31 bytes, and an s of 33 bytes with a zero in front.
der_signature_to_rs_lem_example :
    der_signature_to_rs (
      primitive 0x30 (primitive 0x02 (bytes_of 31 5) ++ primitive 0x02 (0 ∷ bytes_of 32 0xff))
      ++ [])
    ≡ ok (bytes_of 31 5, bytes_of 32 0xff)
der_signature_to_rs_lem_example =
    der_signature_to_rs_lem [] (bytes_of 31 5) (0 ∷ []) (bytes_of 32 0xff) [] (omega arith)
      (omega arith) (inr (refl, omega arith)) (inl refl)
