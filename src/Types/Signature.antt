-- ===== src/Types/Signature.antt =====
-- types/signature.go. Ecrecover of go-ethereum is a parameter.
pub mod Recovery
use keycard_go.Base.{
  ℕ, zero, suc, ◌+◌, ◌-◌, Bool, true, false, not, [], ◌∷◌, ◌++◌, ltb, leb, ◌==◌, if◌then◌else◌,
  length, get_or, take, drop, Option, none, some, bit_and, Result, ok, err, parsing, no_signature,
  bad_signature_length, no_der_signature, schnorr_length,
}
use keycard_go.Base.Bytes.{Bytes, slice, bytes_equal}
use keycard_go.Base.Exec.{Exec, pure, raise, lift, ◌>>=◌, ◌>>◌}
use keycard_go.Tlv.Reader.{
  BerTlvReader, new_ber_tlv_reader, next_tag_is, read_primitive, read_primitive_if_present,
  peek_unread,
}
use keycard_go.Tlv.{tlv_signature_template, tlv_ecdsa_template, tlv_int, tlv_pub_key}

abbrev pub tag_raw_signature : ℕ
tag_raw_signature = 0x80

abbrev pub tag_schnorr_signature : ℕ
tag_schnorr_signature = 0x88

pub record Signature : Type 0 where
  pub pub_key : Bytes
  pub r : Bytes
  pub s : Bytes
  pub v : ℕ

-- `if len(x) > 32 { x = x[len(x)-32:] }`
abbrev pub last_32 : Bytes → Bytes
last_32 bytes = if ltb 32 (length bytes) then drop (length bytes - 32) bytes else bytes

read_integers : Exec BerTlvReader (Bytes × Bytes)
read_integers = do
  r ← read_primitive tlv_int
  s ← read_primitive tlv_int
  pure (last_32 r, last_32 s)

in_sequence : Result Bytes → Result (Bytes × Bytes)
unfolding read_integers
in_sequence (ok content) = (read_integers (new_ber_tlv_reader content)).0
in_sequence (err e) = err e

schnorr_parts : Result (Option Bytes) → Result (Bytes × Bytes)
schnorr_parts (err e) = err e
schnorr_parts (ok none) = err (parsing no_der_signature)
schnorr_parts (ok (some bytes)) =
    if length bytes == 0
    then err (parsing no_der_signature)
    else if not (length bytes == 64)
    then err (parsing schnorr_length)
    else ok (take 32 bytes, slice 32 32 bytes)

unfoldable pub der_signature_to_rs : Bytes → Result (Bytes × Bytes)
unfolding in_sequence schnorr_parts
der_signature_to_rs input =
    let reader = new_ber_tlv_reader input in
    if next_tag_is reader tlv_ecdsa_template
    then in_sequence (read_primitive tlv_ecdsa_template reader).0
    else schnorr_parts (read_primitive_if_present tag_schnorr_signature reader).0

-- Of 33 or 65 bytes.
unfoldable pub compress_public_key : Bytes → Bytes
compress_public_key pub_key =
    if length pub_key == 33
    then pub_key
    else (if bit_and (get_or pub_key 64 0) 1 == 1 then 3 else 2) ∷ slice 1 32 pub_key

module _ (ecrecover : Bytes → Bytes → Result Bytes) where
  -- What the loop compares with the public key.
  unfoldable pub candidate : Bytes → Bytes → Bytes
  candidate pub_key recovered =
      if length pub_key == 33 then compress_public_key recovered else recovered

  -- The rest of a round; `later` is what the other rounds return.
  matched : Bytes → ℕ → Result ℕ → Result Bytes → Result ℕ
  unfolding candidate
  matched pub_key v later (err e) = err e
  matched pub_key v later (ok recovered) =
      if bytes_equal pub_key (candidate pub_key recovered) then ok v else later

  -- `for i := 0; i < 4; i++`, by the rounds left. The `err` behind the loop is not the one inside it,
  -- and is nil.
  v_loop : ℕ → ℕ → Bytes → Bytes → Bytes → Result ℕ
  unfolding matched
  v_loop zero i message pub_key rs = ok (i - 1)
  v_loop (suc rounds) i message pub_key rs =
      matched pub_key i (v_loop rounds (i + 1) message pub_key rs)
        (ecrecover message (rs ++ (i ∷ [])))

  unfoldable pub calculate_v : Bytes → Bytes → Bytes → Bytes → Result ℕ
  unfolding v_loop
  calculate_v message pub_key r s = v_loop 4 0 message pub_key (r ++ s)

  unfoldable pub parse_recoverable_signature : Bytes → Bytes → Result Signature
  parse_recoverable_signature message sig =
      if not (length sig == 65)
      then err (parsing bad_signature_length)
      else elim (ecrecover message sig) [
        | err e ↦ err e
        | ok pub_key ↦ ok (record {
          pub_key = pub_key;
          r = take 32 sig;
          s = slice 32 32 sig;
          v = get_or sig 64 0;
        })
      ]

  with_v : Bytes → Bytes × Bytes → Result ℕ → Result Signature
  with_v pub_key (r, s) (ok v) = ok (record { pub_key = pub_key; r = r; s = s; v = v })
  with_v pub_key (r, s) (err e) = err e

  with_rs : Bytes → Bytes → Bool → Result (Bytes × Bytes) → Result Signature
  unfolding with_v
  with_rs message pub_key is_schnorr (err e) = err e
  with_rs message pub_key is_schnorr (ok (r, s)) =
      with_v pub_key (r, s) (if is_schnorr then ok 0 else calculate_v message pub_key r s)

  legacy_rest : Bytes → Bytes → Exec BerTlvReader Signature
  unfolding with_rs
  legacy_rest message pub_key r = (
    with_rs message pub_key (next_tag_is r tag_schnorr_signature)
        (der_signature_to_rs (peek_unread r)),
    r,
  )

  unfoldable pub parse_legacy_signature : Bytes → Bytes → Result Signature
  unfolding legacy_rest
  parse_legacy_signature message template =
      ((do pub_key ← read_primitive tlv_pub_key; legacy_rest message pub_key)
        (new_ber_tlv_reader template)).0

  in_template : Bytes → Result Bytes → Result Signature
  in_template message (ok template) = parse_legacy_signature message template
  in_template message (err e) = err e

  raw_signature : Bytes → Result (Option Bytes) → Result Signature
  raw_signature message (err e) = err e
  raw_signature message (ok none) = err (parsing no_signature)
  raw_signature message (ok (some sig)) =
      if ltb 0 (length sig)
      then parse_recoverable_signature message sig
      else err (parsing no_signature)

  unfoldable pub parse_signature : Bytes → Bytes → Result Signature
  unfolding in_template raw_signature
  parse_signature message resp =
      let reader = new_ber_tlv_reader resp in
      if next_tag_is reader tlv_signature_template
      then in_template message (read_primitive tlv_signature_template reader).0
      else raw_signature message (read_primitive_if_present tag_raw_signature reader).0
