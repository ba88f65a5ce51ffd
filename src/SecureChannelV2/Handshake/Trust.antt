-- ===== src/SecureChannelV2/Handshake/Trust.antt =====
-- Which certificates SetCardCertificate accepts.
use mathlib.Core.List.{Mem, mem-cons, mem-cons_self, mem-cons_of_mem, not-mem-nil}
use mathlib.Core.HLevel.{⊥_prop}
use mathlib.Core.Logic.Or
use keycard_go.Base.{
  ◌≡◌, refl, inl, inr, ◌⊎◌, ◌&&◌, Bool, Bool-cases, true, false, [], ◌∷◌, List, arith, length, ◌==◌,
  some, Result, ok, err,
}
use keycard_go.Base.Bytes.{Bytes, bytes_equal, eq_of_bytes_equal, bytes_equal_refl}
use keycard_go.Crypto.Curve.{Curve}
use keycard_go.SecureChannelV2.{SecureChannelV2}
use keycard_go.SecureChannelV2.Handshake.{
  listed, is_ca_trusted, is_card_whitelisted, trusted_by, with_certificate, set_card_certificate,
}
use keycard_go.Types.Certificate.{Certificate, parse_certificate}

mem_of_listed : (key : Bytes) (keys : List Bytes) → listed key keys ≡ true → Mem key keys
unfolding listed
mem_of_listed key [] h = cc
mem_of_listed key (k ∷ keys) h = elim (Bool-cases (bytes_equal k key)) [
  | inl same ↦ rw (eq_of_bytes_equal k key same) mem-cons_self
  | inr other ↦ mem-cons_of_mem k (mem_of_listed key keys (ground (arith, h, other)))
]

not_mem_of_listed : (key : Bytes) (keys : List Bytes) → listed key keys ≡ false → ¬ Mem key keys
unfolding listed
not_mem_of_listed key [] h m = not-mem-nil m
not_mem_of_listed key (k ∷ keys) h m = elim (Bool-cases (bytes_equal k key)) [
  | inl same ↦ cc (h, same)
  | inr other ↦
      Or.elim ⊥_prop (mem-cons.0 m) (λ e. let self = bytes_equal_refl key in cc (e, self, other))
        (not_mem_of_listed key keys (ground (arith, h, other)))
]

-- What SetCardCertificate asks of a certificate: its CA key is one of those of the channel, or the
-- identity key of the card is listed.
abbrev pub Trusts : List Bytes → List Bytes → Certificate → Type 0
Trusts ca_public_keys whitelisted cert =
    ((length cert.signature.pub_key ≡ 33) × Mem cert.signature.pub_key ca_public_keys)
    ⊎ Mem cert.ident_pub whitelisted

-- The channel afterwards holds the identity key, trusted or not.
abbrev pub IsJudged : SecureChannelV2 → Certificate → Result (Unit {0}) × SecureChannelV2 → Type 0
IsJudged sc cert (ok done, sc') =
    (sc' ≡ record sc { card_ident_pub = some cert.ident_pub })
    × Trusts sc.ca_public_keys sc.whitelisted_card_keys cert
IsJudged sc cert (err e, sc') =
    (sc' ≡ record sc { card_ident_pub = some cert.ident_pub })
    × ¬ Trusts sc.ca_public_keys sc.whitelisted_card_keys cert

module _ (cert : Certificate) (cas whitelisted : List Bytes) where
  abbrev by_ca : Bool
  by_ca = length cert.signature.pub_key == 33 && listed cert.signature.pub_key cas

  by_ca_lem : by_ca ≡ true → Trusts cas whitelisted cert
  by_ca_lem h =
      inl (ground (arith, h), mem_of_listed cert.signature.pub_key cas (ground (arith, h)))

  refused_lem :
      by_ca ≡ false → listed cert.ident_pub whitelisted ≡ false → ¬ Trusts cas whitelisted cert
  refused_lem h unlisted (inl (size, known)) =
      not_mem_of_listed cert.signature.pub_key cas (ground (arith, h, size)) known
  refused_lem h unlisted (inr known) = not_mem_of_listed cert.ident_pub whitelisted unlisted known

trusted_by_lem : (sc : SecureChannelV2) (cert : Certificate) → IsJudged sc cert (trusted_by cert sc)
unfolding trusted_by is_ca_trusted is_card_whitelisted
trusted_by_lem sc cert = elim (Bool-cases (by_ca cert sc.ca_public_keys sc.whitelisted_card_keys)) [
  | inl known ↦ rw known (refl, by_ca_lem cert sc.ca_public_keys sc.whitelisted_card_keys known)
  | inr unknown ↦ elim (Bool-cases (listed cert.ident_pub sc.whitelisted_card_keys)) [
    | inl known ↦
        rw (unknown, known)
          (refl, inr (mem_of_listed cert.ident_pub sc.whitelisted_card_keys known))
    | inr unlisted ↦
        rw (unknown, unlisted)
          (refl, refused_lem cert sc.ca_public_keys sc.whitelisted_card_keys unknown unlisted)
  ]
]

module _ (curve : Curve) where
  -- SetCardCertificate of bytes that are a certificate succeeds exactly when its CA key, of 33 bytes,
  -- is one of the channel's or the identity key of the card is whitelisted. In both cases the channel
  -- holds the identity key afterwards, and nothing else of it changes.
  pub set_card_certificate_lem :
      (sc : SecureChannelV2) (cert_data : Bytes) (cert : Certificate)
      → parse_certificate curve cert_data ≡ ok cert
      → IsJudged sc cert (set_card_certificate curve cert_data sc)
  unfolding set_card_certificate with_certificate
  set_card_certificate_lem sc cert_data cert parsed = rw parsed (trusted_by_lem sc cert)

  -- A certificate that the code reads from bytes, of an identity key.
  abbrev pub IsTrusted : List Bytes → List Bytes → Bytes → Type 0
  IsTrusted cas whitelisted ident =
      (cert_data : Bytes) × (cert : Certificate) × (parse_certificate curve cert_data ≡ ok cert)
      × (cert.ident_pub ≡ ident)
      × Trusts cas whitelisted cert

  abbrev pub IsVetted : SecureChannelV2 → Result (Unit {0}) × SecureChannelV2 → Type 0
  IsVetted sc (ok done, sc') =
      (ident : Bytes) × (sc' ≡ record sc { card_ident_pub = some ident })
      × IsTrusted sc.ca_public_keys sc.whitelisted_card_keys ident
  IsVetted sc (err e, sc') = Unit

  vetted_lem :
      (sc : SecureChannelV2) (cert_data : Bytes) (parsed : Result Certificate)
      → parse_certificate curve cert_data ≡ parsed
      → IsVetted sc (with_certificate curve parsed sc)
  unfolding with_certificate
  vetted_lem sc cert_data (err e) h = tt
  vetted_lem sc cert_data (ok cert) h = judged (trusted_by cert sc) (trusted_by_lem sc cert)
    where
      judged :
          (outcome : Result (Unit {0}) × SecureChannelV2)
          → IsJudged sc cert outcome
          → IsVetted sc outcome
      judged (ok done, sc') (changed, trusted) =
          (cert.ident_pub, changed, (cert_data, cert, h, refl, trusted))
      judged (err e, sc') j = tt

  pub set_card_certificate-IsVetted :
      (sc : SecureChannelV2) (cert_data : Bytes)
      → IsVetted sc (set_card_certificate curve cert_data sc)
  unfolding set_card_certificate
  set_card_certificate-IsVetted sc cert_data =
      vetted_lem sc cert_data (parse_certificate curve cert_data) refl
