-- ===== src/Types/Certificate/Created.antt =====
-- A certificate that the CA creates, stored and parsed again.
use keycard_go.Base.{
  ℕ, zero, suc, ◌+◌, ◌-◌, ◌<◌, ◌≤◌, ◌≡◌, ◌≢◌, refl, sym, ap, ◌∙◌, inl, inr, Bool-cases, true, false,
  ◌∷◌, ◌++◌, arith, ltb, length, length-append, length-replicate, get_or, take, drop, replicate,
  take-append_eq, drop-append_eq, drop-drop, drop-head, none, Result, ok, err,
}
use keycard_go.Base.Bytes.{Bytes, slice, bytes_equal, bytes_equal_refl, eq_of_bytes_equal}
use keycard_go.Crypto.Curve.{Curve}
use keycard_go.Types.Signature.{der_signature_to_rs}
use keycard_go.Types.Certificate.{
  Certificate, padded_32, recover_public_key, parse_certificate, certificate_with,
  create_certificate, created_of, created, rec_id_loop, id_or_later, to_store_data, stored_with,
}

length-padded_32 : (x : Bytes) → length x ≤ 32 → length (padded_32 x) ≡ 32
length-padded_32 x h =
    let zeros : Bytes = replicate (32 - length x) 0 in
    omega (arith, length-append zeros x, length-replicate {A = ℕ} (32 - length x) 0)

module _ (curve : Curve) (ca_pub hash r s : Bytes) where
  abbrev IsRecovered : ℕ → Type 0
  IsRecovered i = recover_public_key curve i hash r s true ≡ ok ca_pub

  id_lem :
      (i j later : ℕ) (result : Result Bytes)
      → recover_public_key curve i hash r s true ≡ result
      → IsRecovered j
      → (i ≢ j → IsRecovered later)
      → IsRecovered (id_or_later curve ca_pub i later result)
  unfolding id_or_later
  id_lem i j later (err e) found fits ih = ih (λ same. cc)
  id_lem i j later (ok k) found fits ih = elim (Bool-cases (bytes_equal k ca_pub)) [
    | inl same ↦ rw same (found ∙ ap (λ (x : Bytes). ok x) (eq_of_bytes_equal k ca_pub same))
    | inr other ↦ let self = bytes_equal_refl ca_pub in rw other (ih (λ same. cc))
  ]

  rec_id_loop_lem :
      (rounds i j : ℕ)
      → i ≤ j
      → j < i + rounds
      → IsRecovered j
      → IsRecovered (rec_id_loop curve rounds i ca_pub hash r s)
  unfolding rec_id_loop
  rec_id_loop_lem zero i j low high fits = absurd (omega (arith, low, high))
  rec_id_loop_lem (suc rounds) i j low high fits =
      id_lem i j (rec_id_loop curve rounds (i + 1) ca_pub hash r s) _ refl fits (λ other.
        rec_id_loop_lem rounds (i + 1) j (omega (arith, low, other)) (omega (arith, high)) fits)

-- The parts of a stored certificate.
abbrev stored : Bytes → Bytes → Bytes → ℕ → Bytes → Bytes
stored ident_pub r s v ident_priv = ident_pub ++ (r ++ (s ++ (v ∷ ident_priv)))

module _ (ident_pub r s : Bytes) (v : ℕ) (ident_priv : Bytes) (h_ident : length ident_pub ≡ 33)
    (h_r : length r ≡ 32) (h_s : length s ≡ 32) where
  abbrev whole : Bytes
  whole = stored ident_pub r s v ident_priv

  after_ident : drop 33 whole ≡ r ++ (s ++ (v ∷ ident_priv))
  after_ident = drop-append_eq 33 ident_pub (r ++ (s ++ (v ∷ ident_priv))) h_ident

  after_r : drop 65 whole ≡ s ++ (v ∷ ident_priv)
  after_r =
      sym (drop-drop 32 33 whole)
      ∙ ap (drop 32) after_ident
      ∙ drop-append_eq 32 r (s ++ (v ∷ ident_priv)) h_r

  after_s : drop 97 whole ≡ v ∷ ident_priv
  after_s =
      sym (drop-drop 32 65 whole) ∙ ap (drop 32) after_r ∙ drop-append_eq 32 s (v ∷ ident_priv) h_s

  parts_lem :
      (take 33 whole ≡ ident_pub)
      × (slice 33 32 whole ≡ r)
      × (slice 65 32 whole ≡ s)
      × (get_or whole 97 0 ≡ v)
      × (ltb (length whole) 98 ≡ false)
  parts_lem =
      let long : 98 ≤ length whole = omega (
        arith,
        length-append ident_pub (r ++ (s ++ (v ∷ ident_priv))),
        length-append r (s ++ (v ∷ ident_priv)),
        length-append s (v ∷ ident_priv),
        h_ident,
        h_r,
        h_s,
      ) in
      (
        take-append_eq 33 ident_pub (r ++ (s ++ (v ∷ ident_priv))) h_ident,
        ap (take 32) after_ident ∙ take-append_eq 32 r (s ++ (v ∷ ident_priv)) h_r,
        ap (take 32) after_r ∙ take-append_eq 32 s (v ∷ ident_priv) h_s,
        drop-head whole 97 0 after_s,
        ground (arith, long),
      )

module _ (curve : Curve) (ca_pub : Bytes) (sign : Bytes → Bytes) (ident_pub ident_priv r s : Bytes)
    (h_ident : length ident_pub ≡ 33) (h_r : length r ≤ 32) (h_s : length s ≤ 32)
    (signed : der_signature_to_rs (sign (curve.sha256 ident_pub)) ≡ ok (r, s)) where
  parse_stored :
      (v : ℕ)
      → recover_public_key curve v (curve.sha256 ident_pub) (padded_32 r) (padded_32 s) true
        ≡ ok ca_pub
      → parse_certificate curve (stored ident_pub (padded_32 r) (padded_32 s) v ident_priv)
        ≡ ok (record {
          ident_priv = none;
          ident_pub = ident_pub;
          signature = record { pub_key = ca_pub; r = padded_32 r; s = padded_32 s; v = v };
        })
  unfolding parse_certificate certificate_with
  parse_stored v recovered =
      let (e1, e2, e3, e4, e5) =
        parts_lem ident_pub (padded_32 r) (padded_32 s) v ident_priv h_ident
          (length-padded_32 r h_r) (length-padded_32 s h_s) in
      rw (parse_certificate, e5, e1, e2, e3, e4, recovered) refl

  -- A certificate that the CA creates can be stored and is parsed back with the identity key and with
  -- the key of the CA, where one of the four recovery ids gives that key back from the signature.
  pub parse_certificate-create_certificate :
      (i : ℕ)
      → i < 4
      → recover_public_key curve i (curve.sha256 ident_pub) (padded_32 r) (padded_32 s) true
        ≡ ok ca_pub
      → (c : Certificate) × (bytes : Bytes) × (parsed : Certificate) × (create_certificate curve
            ca_pub sign ident_pub ident_priv
          ≡ ok c)
        × (to_store_data c ≡ ok bytes)
        × (parse_certificate curve bytes ≡ ok parsed)
        × (parsed.ident_pub ≡ ident_pub)
        × (parsed.signature.pub_key ≡ ca_pub)
        × (parsed.signature ≡ c.signature)
  unfolding create_certificate created_of created to_store_data stored_with
  parse_certificate-create_certificate i small fits =
      let hash = curve.sha256 ident_pub in
      let v = rec_id_loop curve 4 0 ca_pub hash (padded_32 r) (padded_32 s) in
      let recovered =
        rec_id_loop_lem curve ca_pub hash (padded_32 r) (padded_32 s) 4 0 i (omega arith)
          (omega arith) fits in
      (
        created curve ca_pub ident_pub ident_priv (r, s),
        stored ident_pub (padded_32 r) (padded_32 s) v ident_priv,
        record {
          ident_priv = none;
          ident_pub = ident_pub;
          signature = record { pub_key = ca_pub; r = padded_32 r; s = padded_32 s; v = v };
        },
        ap (created_of curve ca_pub ident_pub ident_priv) signed,
        refl,
        parse_stored v recovered,
        refl,
        refl,
        refl,
      )
