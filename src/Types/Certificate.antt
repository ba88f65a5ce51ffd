-- ===== src/Types/Certificate.antt =====
-- types/certificate.go, and RecoverPublicKey of types/signature.go. A key pair of the CA is its public
-- key and the function that signs a hash into DER.
pub mod Created
use keycard_go.Base.{
  ℕ, zero, suc, ◌+◌, ◌-◌, Bool, true, not, ◌||◌, ◌∷◌, ◌++◌, ltb, ◌==◌, if◌then◌else◌, length,
  get_or, take, replicate, Option, none, some, Result, ok, err, parsing, bad_recovery_id,
  bad_component_length, certificate_too_short, signature_too_short, bad_identity_signature,
  no_private_key,
}
use keycard_go.Base.Bytes.{Bytes, slice, copy_into, bytes_equal}
use keycard_go.Base.Exec.{Exec, raise, lift, ◌>>=◌}
use keycard_go.Crypto.Curve.{Curve}
use keycard_go.Tlv.{tlv_signature_template, tlv_cert}
use keycard_go.Tlv.Reader.{
  BerTlvReader, new_ber_tlv_reader, enter_constructed, read_primitive, peek_unread,
}
use keycard_go.Types.Signature.{Signature, compress_public_key, der_signature_to_rs}

pub record Certificate : Type 0 where
  pub ident_priv : Option Bytes
  pub ident_pub : Bytes
  pub signature : Signature

-- `copy(padded[32-len(x):], x)` into 32 zero bytes, for at most 32 bytes.
abbrev pub padded_32 : Bytes → Bytes
padded_32 x = replicate (32 - length x) 0 ++ x

module _ (curve : Curve) where
  in_form : Bool → Result Bytes → Result Bytes
  in_form compressed (ok pub_key) = ok (if compressed then curve.compress pub_key else pub_key)
  in_form compressed (err e) = err e

  -- Of a recovery id that is not negative.
  unfoldable pub recover_public_key : ℕ → Bytes → Bytes → Bytes → Bool → Result Bytes
  unfolding in_form
  recover_public_key rec_id hash r s compressed =
      if ltb 3 rec_id
      then err (parsing bad_recovery_id)
      else if not (length hash == 32) || (not (length r == 32) || not (length s == 32))
      then err (parsing bad_component_length)
      else in_form compressed (
          curve.recover_compact
            ((if compressed then 27 + rec_id + 4 else 27 + rec_id)
              ∷ (copy_into 32 r ++ copy_into 32 s))
            hash)

  certificate_with : Bytes → Bytes → Bytes → ℕ → Result Bytes → Result Certificate
  certificate_with ident_pub r s rec_id (err e) = err e
  certificate_with ident_pub r s rec_id (ok ca_pub) = ok (record {
    ident_priv = none;
    ident_pub = ident_pub;
    signature = record { pub_key = ca_pub; r = r; s = s; v = rec_id };
  })

  unfoldable pub parse_certificate : Bytes → Result Certificate
  unfolding certificate_with
  parse_certificate input =
      if ltb (length input) 98
      then err (parsing certificate_too_short)
      else let ident_pub = take 33 input in
        let r = slice 33 32 input in
        let s = slice 65 32 input in
        let rec_id = get_or input 97 0 in
        certificate_with ident_pub r s rec_id
          (recover_public_key rec_id (curve.sha256 ident_pub) r s true)

  signature_parts : Bytes → Result (Bytes × Bytes)
  signature_parts sig =
      if length sig == 65 then ok (take 32 sig, slice 32 32 sig) else curve.parse_der sig

  verified_by : Bytes → Certificate → Bytes × Bytes → Bytes → Result Bytes
  verified_by hash cert (r, s) ident_key =
      if not (curve.verify r s hash ident_key)
      then err (parsing bad_identity_signature)
      else ok (compress_public_key cert.signature.pub_key)

  with_signature : Bytes → Certificate → Bytes → Exec BerTlvReader Bytes
  unfolding signature_parts verified_by
  with_signature hash cert sig =
      if ltb (length sig) 2 then raise (parsing signature_too_short) else (do
        parts ← lift (signature_parts sig)
        ident_key ← lift (curve.decompress cert.ident_pub)
        lift (verified_by hash cert parts ident_key))

  -- The rest of the template, which the reader has not read.
  identity_rest : Bytes → Certificate → Exec BerTlvReader Bytes
  unfolding with_signature
  identity_rest hash cert reader = with_signature hash cert (peek_unread reader) reader

  unfoldable pub verify_identity : Bytes → Bytes → Result Bytes
  unfolding identity_rest
  verify_identity hash input =
      ((do
        length ← enter_constructed tlv_signature_template
        cert_data ← read_primitive tlv_cert
        cert ← lift (parse_certificate cert_data)
        identity_rest hash cert)
        (new_ber_tlv_reader input)).0

  -- What a round of the search does with the recovered key; `later` is what the other rounds find.
  id_or_later : Bytes → ℕ → ℕ → Result Bytes → ℕ
  id_or_later ca_pub i later (err e) = later
  id_or_later ca_pub i later (ok recovered) = if bytes_equal recovered ca_pub then i else later

  -- `for i := byte(0); i < 4; i++`, by the rounds left; the id stays 0 if none fits.
  rec_id_loop : ℕ → ℕ → Bytes → Bytes → Bytes → Bytes → ℕ
  unfolding id_or_later
  rec_id_loop zero i ca_pub hash r s = 0
  rec_id_loop (suc rounds) i ca_pub hash r s =
      id_or_later ca_pub i (rec_id_loop rounds (i + 1) ca_pub hash r s)
        (recover_public_key i hash r s true)

  created : Bytes → Bytes → Bytes → Bytes × Bytes → Certificate
  unfolding rec_id_loop
  created ca_pub ident_pub ident_priv (r, s) =
      let rp = padded_32 r in
      let sp = padded_32 s in
      record {
        ident_priv = some ident_priv;
        ident_pub = ident_pub;
        signature = record {
          pub_key = ca_pub;
          r = rp;
          s = sp;
          v = rec_id_loop 4 0 ca_pub (curve.sha256 ident_pub) rp sp;
        };
      }

  created_of : Bytes → Bytes → Bytes → Result (Bytes × Bytes) → Result Certificate
  unfolding created
  created_of ca_pub ident_pub ident_priv (ok rs) = ok (created ca_pub ident_pub ident_priv rs)
  created_of ca_pub ident_pub ident_priv (err e) = err e

  unfoldable pub create_certificate : Bytes → (Bytes → Bytes) → Bytes → Bytes → Result Certificate
  unfolding created_of
  create_certificate ca_pub sign ident_pub ident_priv =
      created_of ca_pub ident_pub ident_priv (der_signature_to_rs (sign (curve.sha256 ident_pub)))

  -- `generated` is the key pair of GenerateIdentKeyPair, private and compressed public, or its error.
  unfoldable pub generate_new_certificate :
      Bytes → (Bytes → Bytes) → Result (Bytes × Bytes) → Result Certificate
  generate_new_certificate ca_pub sign (ok (priv_bytes, ident_pub)) =
      create_certificate ca_pub sign (copy_into 33 ident_pub) priv_bytes
  generate_new_certificate ca_pub sign (err e) = err e

unfoldable pub ca_public_key : Certificate → Bytes
ca_public_key c = c.signature.pub_key

stored_with : Certificate → Option Bytes → Result Bytes
stored_with c none = err (parsing no_private_key)
stored_with c (some ident_priv) =
    ok (c.ident_pub ++ (c.signature.r ++ (c.signature.s ++ (c.signature.v ∷ ident_priv))))

unfoldable pub to_store_data : Certificate → Result Bytes
unfolding stored_with
to_store_data c = stored_with c c.ident_priv
