-- ===== src/SecureChannelV2/Handshake/Completes.antt =====
-- AutoOpen with a card that answers as the applet does.
use mathlib.Core.Path.{subst}
use keycard_go.Base.{
  ℕ, zero, suc, ◌+◌, ◌<◌, ◌≤◌, ◌≡◌, ◌≢◌, refl, inl, inr, Bool-cases, true, false, [], ◌∷◌, ◌++◌,
  arith, length, length-append, take, drop, take-append_eq, drop-append_eq, ltb, ge→ltb, some,
  Result, ok, err,
}
use keycard_go.Base.Bytes.{
  Bytes, copy_into, copy_into_self, bytes_equal, bytes_equal_refl, eq_of_bytes_equal,
}
use keycard_go.Base.Exec.{Exec}
use keycard_go.Apdu.Command.{Command, new_command}
use keycard_go.Apdu.Response.{Response}
use keycard_go.Crypto.Curve.{Curve}
use keycard_go.SecureChannelV2.{SecureChannelV2, close, zero_nonce}
use keycard_go.SecureChannelV2.Handshake.{
  transcript_hash, recovery_loop, recovered_key, unmarshalled, recovery_of,
  verify_signature_by_recovery, same_identity, signed_by, signed_for, verify_card_signature,
  with_keys, authenticated, keyed, with_card_key, process_handshake_response, handshake_answer,
  after_answer, auto_open, salted, open_with, protocol_label,
}
use keycard_go.SecureChannelV2.Handshake.Der.{
  IsScalar, der_signature, parse_der_signature-der_signature, der_signature_long,
}

-- The identity key of a card: the key that the channel holds is its compressed form.
pub record IsIdentity (curve : Curve) (ident key : Bytes) : Type 0 where
  pub decompressed : curve.decompress ident ≡ ok key
  pub compressed : curve.compress key ≡ ident
  pub valid : curve.unmarshal key ≡ ok key

module _ (curve : Curve) (ident key : Bytes) (is_identity : IsIdentity curve ident key) where
  module _ (hash r s : Bytes) where
    abbrev GivesKey : ℕ → Type 0
    GivesKey i = curve.ecrecover hash (copy_into 32 r ++ (copy_into 32 s ++ (i ∷ []))) ≡ ok key

    unmarshalled_ok :
        (i v : ℕ) (recovered : Bytes) (later result : Result Bytes)
        → curve.ecrecover hash (copy_into 32 r ++ (copy_into 32 s ++ (i ∷ []))) ≡ ok recovered
        → curve.unmarshal recovered ≡ result
        → GivesKey v
        → (i ≢ v → later ≡ ok key)
        → unmarshalled curve key recovered later result ≡ ok key
    unfolding unmarshalled
    unmarshalled_ok i v recovered later (err e) found read fits ih =
        let valid = is_identity.valid in ih (λ same. cc)
    unmarshalled_ok i v recovered later (ok k) found read fits ih =
        elim (Bool-cases (bytes_equal recovered key)) [
          | inl same ↦
              let valid = is_identity.valid in
              let e = eq_of_bytes_equal recovered key same in rw same (cc (valid, e, read))
          | inr other ↦ let self = bytes_equal_refl key in rw other (ih (λ same. cc))
        ]

    recovered_ok :
        (i v : ℕ) (later result : Result Bytes)
        → curve.ecrecover hash (copy_into 32 r ++ (copy_into 32 s ++ (i ∷ []))) ≡ result
        → GivesKey v
        → (i ≢ v → later ≡ ok key)
        → recovered_key curve key later result ≡ ok key
    unfolding recovered_key
    recovered_ok i v later (err e) found fits ih = ih (λ same. cc)
    recovered_ok i v later (ok recovered) found fits ih =
        unmarshalled_ok i v recovered later (curve.unmarshal recovered) found refl fits ih

    recovery_ok :
        (rounds i v : ℕ)
        → i ≤ v
        → v < i + rounds
        → GivesKey v
        → recovery_loop curve rounds i hash r s key ≡ ok key
    unfolding recovery_loop
    recovery_ok zero i v low high fits = absurd (omega (arith, low, high))
    recovery_ok (suc rounds) i v low high fits =
        recovered_ok i v (recovery_loop curve rounds (i + 1) hash r s key) _ refl fits (λ other.
          recovery_ok rounds (i + 1) v (omega (arith, low, other)) (omega (arith, high)) fits)

  module _ (hash r s rest : Bytes) (v : ℕ) (is_r : IsScalar r) (is_s : IsScalar s) where
    copied : (scalar : Bytes) → IsScalar scalar → copy_into 32 scalar ≡ scalar
    copied scalar h = subst (λ (n : ℕ). copy_into n scalar ≡ scalar) h.size (copy_into_self scalar)

    signed_ok :
        v < 4
        → curve.ecrecover hash (r ++ (s ++ (v ∷ []))) ≡ ok key
        → signed_for curve hash (der_signature r s ++ rest) (some ident) ≡ ok tt
    unfolding signed_for signed_by verify_signature_by_recovery recovery_of same_identity
    signed_ok small recovers =
        let fits : GivesKey hash r s v = rw (copied r is_r, copied s is_s) recovers in
        let found = recovery_ok hash r s 4 0 v (omega arith) (omega (arith, small)) fits in
        let read = parse_der_signature-der_signature r s rest is_r is_s in
        rw (is_identity.decompressed, read, found, is_identity.compressed, bytes_equal_refl ident)
          refl

-- The applet's answer to the handshake: its ephemeral key, and the signature of the transcript by its
-- identity key. `okm` is what HKDF then gives both sides.
pub record IsHandshake (curve : Curve) (salt eph_priv ident key okm payload : Bytes) : Type 0 where
  pub card_bytes : Bytes
  pub card_pub : Bytes
  pub r : Bytes
  pub s : Bytes
  pub rest : Bytes
  pub v : ℕ
  pub is_payload : payload ≡ card_bytes ++ (der_signature r s ++ rest)
  pub size : length card_bytes ≡ 65
  pub valid : curve.unmarshal card_bytes ≡ ok card_pub
  pub derived : curve.hkdf protocol_label salt (curve.shared_x eph_priv card_pub) 32 ≡ ok okm
  pub small : v < 4
  pub is_r : IsScalar r
  pub is_s : IsScalar s
  pub recovers :
      curve.ecrecover
        (transcript_hash curve salt (curve.public_of eph_priv) card_pub)
        (r ++ (s ++ (v ∷ [])))
      ≡ ok key

-- The channel after a handshake.
abbrev keyed_with : Bytes → SecureChannelV2 → SecureChannelV2
keyed_with okm sc = record sc {
  key_h2c = some (copy_into 16 (take 16 okm));
  key_c2h = some (copy_into 16 (drop 16 okm));
  nonce_counter = zero_nonce;
  is_open = true;
}

abbrev pub opened_with : Bytes → Bytes → SecureChannelV2 → SecureChannelV2
opened_with eph_priv okm sc = keyed_with okm (record sc { client_eph_priv_key = some eph_priv })

module _ (curve : Curve) (salt eph_priv ident key okm : Bytes)
    (is_identity : IsIdentity curve ident key) where
  response_ok :
      (payload : Bytes) (sc : SecureChannelV2)
      → sc.card_ident_pub ≡ some ident
      → IsHandshake curve salt eph_priv ident key okm payload
      → process_handshake_response curve salt eph_priv payload sc ≡ (ok tt, keyed_with okm sc)
  unfolding process_handshake_response with_card_key keyed verify_card_signature with_keys
      authenticated
  response_ok payload sc known h =
      let signature = der_signature h.r h.s ++ h.rest in
      let long : ltb (length (h.card_bytes ++ signature)) 67 ≡ false = ge→ltb _ 67 (
        omega (
          arith,
          length-append h.card_bytes signature,
          h.size,
          der_signature_long h.r h.s h.rest,
        )) in
      let front = take-append_eq 65 h.card_bytes signature h.size in
      let back = drop-append_eq 65 h.card_bytes signature h.size in
      let proved =
        signed_ok curve ident key is_identity
          (transcript_hash curve salt (curve.public_of eph_priv) h.card_pub) h.r h.s h.rest h.v
          h.is_r h.is_s h.small h.recovers in
      rw (h.is_payload, long, front, back, h.valid, h.derived, known, proved) refl

  module _ {W : Type 0} (send : Command → Exec W Response) where
    -- When the card answers the handshake with 9000, a key that UnmarshalPubkey reads and the
    -- signature of the transcript by the identity key that the channel holds, then AutoOpen
    -- succeeds, and the channel is open with the keys of HKDF and nonce zero.
    pub auto_open_completes :
        (sc : SecureChannelV2) (w w' : W) (resp : Response)
        → sc.card_ident_pub ≡ some ident
        → send (new_command 0x80 0x10 0 0 (salt ++ curve.public_of eph_priv)) w ≡ (ok resp, w')
        → resp.sw ≡ 0x9000
        → IsHandshake curve salt eph_priv ident key okm resp.payload
        → auto_open curve send (ok salt) (ok eph_priv) (sc, w)
          ≡ (ok tt, (opened_with eph_priv okm sc, w'))
    unfolding auto_open salted open_with after_answer handshake_answer
    auto_open_completes sc w w' resp known sent status h =
        let opened =
          response_ok resp.payload (record (close sc) { client_eph_priv_key = some eph_priv }) known
            h in
        rw (sent, status, opened) refl
