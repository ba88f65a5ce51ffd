-- ===== src/SecureChannelV2/Handshake/Authentication.antt =====
-- What verifyCardSignature returns.
use keycard_go.Base.{
  ℕ, zero, suc, ◌+◌, ◌<◌, ◌≡◌, refl, ap, ◌∙◌, inl, inr, Bool-cases, [], ◌∷◌, ◌++◌, arith, Option,
  none, some, Result, ok, err,
}
use keycard_go.Base.Bytes.{Bytes, copy_into, bytes_equal, eq_of_bytes_equal}
use keycard_go.Crypto.Curve.{Curve}
use keycard_go.SecureChannelV2.Handshake.{
  parse_der_signature, recovery_loop, recovered_key, unmarshalled, recovery_of,
  verify_signature_by_recovery, same_identity, signed_by, signed_for,
}

module _ (curve : Curve) where
  -- One of the four recovery ids gives back the key.
  abbrev pub Recovers : Bytes → Bytes → Bytes → Bytes → Type 0
  Recovers hash r s key =
      (v : ℕ) × (v < 4)
      × (curve.ecrecover hash (copy_into 32 r ++ (copy_into 32 s ++ (v ∷ []))) ≡ ok key)

  -- A DER signature of a hash by the identity key of a card.
  abbrev pub IsSignature : Bytes → Bytes → Bytes → Type 0
  IsSignature hash signature ident =
      (key : Bytes) × (r : Bytes) × (s : Bytes) × (curve.decompress ident ≡ ok key)
      × (parse_der_signature signature ≡ ok (r, s))
      × Recovers hash r s key

  abbrev Found : Type 0 → Result Bytes → Type 0
  Found P (ok key) = P
  Found P (err e) = Unit

  module _ (hash r s expected : Bytes) where
    unmarshalled_lem :
        (v : ℕ) (recovered : Bytes) (later key : Result Bytes)
        → v < 4
        → curve.ecrecover hash (copy_into 32 r ++ (copy_into 32 s ++ (v ∷ []))) ≡ ok recovered
        → Found (Recovers hash r s expected) later
        → Found (Recovers hash r s expected) (unmarshalled curve expected recovered later key)
    unfolding unmarshalled
    unmarshalled_lem v recovered later (err e) small found ih = ih
    unmarshalled_lem v recovered later (ok key) small found ih =
        elim (Bool-cases (bytes_equal recovered expected)) [
          | inl same ↦ rw same (
            v,
            small,
            found ∙ ap (λ (k : Bytes). ok k) (eq_of_bytes_equal recovered expected same),
          )
          | inr other ↦ rw other ih
        ]

    recovered_key_lem :
        (v : ℕ) (later result : Result Bytes)
        → v < 4
        → curve.ecrecover hash (copy_into 32 r ++ (copy_into 32 s ++ (v ∷ []))) ≡ result
        → Found (Recovers hash r s expected) later
        → Found (Recovers hash r s expected) (recovered_key curve expected later result)
    unfolding recovered_key
    recovered_key_lem v later (err e) small found ih = ih
    recovered_key_lem v later (ok recovered) small found ih =
        unmarshalled_lem v recovered later (curve.unmarshal recovered) small found ih

    recovery_loop_lem :
        (rounds v : ℕ)
        → rounds + v ≡ 4
        → Found (Recovers hash r s expected) (recovery_loop curve rounds v hash r s expected)
    unfolding recovery_loop
    recovery_loop_lem zero v h = tt
    recovery_loop_lem (suc rounds) v h =
        recovered_key_lem v (recovery_loop curve rounds (v + 1) hash r s expected) _ (omega arith)
          refl (recovery_loop_lem rounds (v + 1) (omega arith))

  abbrev pub Done : Type 0 → Result (Unit {0}) → Type 0
  Done P (ok done) = P
  Done P (err e) = Unit

  module _ (hash signature ident key : Bytes) (h : curve.decompress ident ≡ ok key) where
    same_identity_lem :
        (P : Type 0) (result : Result Bytes)
        → Found P result
        → Done P (same_identity curve ident result)
    unfolding same_identity
    same_identity_lem P (err e) found = tt
    same_identity_lem P (ok recovered) found =
        elim (Bool-cases (bytes_equal (curve.compress recovered) ident)) [
          | inl same ↦ rw same found
          | inr other ↦ rw other tt
        ]

    recovery_of_lem :
        (parts : Result (Bytes × Bytes))
        → parse_der_signature signature ≡ parts
        → Found (IsSignature hash signature ident) (recovery_of curve hash key parts)
    unfolding recovery_of
    recovery_of_lem (err e) parsed = tt
    recovery_of_lem (ok (r, s)) parsed =
        found_map (recovery_loop curve 4 0 hash r s key) (recovery_loop_lem hash r s key 4 0 refl)
      where
        found_map :
            (result : Result Bytes)
            → Found (Recovers hash r s key) result
            → Found (IsSignature hash signature ident) result
        found_map (err e) found = tt
        found_map (ok k) found = (key, r, s, h, parsed, found)

  signed_by_lem :
      (hash signature ident : Bytes) (key : Result Bytes)
      → curve.decompress ident ≡ key
      → Done (IsSignature hash signature ident) (signed_by curve hash signature ident key)
  unfolding signed_by verify_signature_by_recovery
  signed_by_lem hash signature ident (err e) h = tt
  signed_by_lem hash signature ident (ok key) h =
      same_identity_lem hash signature ident key h (IsSignature hash signature ident)
        (verify_signature_by_recovery curve hash signature key)
        (recovery_of_lem hash signature ident key h (parse_der_signature signature) refl)

  pub signed_for_lem :
      (hash signature : Bytes) (ident : Option Bytes)
      → Done
          ((i : Bytes) × (ident ≡ some i) × IsSignature hash signature i)
          (signed_for curve hash signature ident)
  unfolding signed_for
  signed_for_lem hash signature none = tt
  signed_for_lem hash signature (some i) =
      Done_map (signed_by curve hash signature i (curve.decompress i))
        (signed_by_lem hash signature i (curve.decompress i) refl)
    where
      Done_map :
          (result : Result (Unit {0}))
          → Done (IsSignature hash signature i) result
          → Done ((i' : Bytes) × (some i ≡ some i') × IsSignature hash signature i') result
      Done_map (ok done) signed = (i, refl, signed)
      Done_map (err e) signed = tt
