-- ===== src/Tests/Certificates.antt =====
-- A certificate of the CA with the key 7.
use keycard_go.Base.{inr, ◌≡◌, refl, [], ◌∷◌, ◌++◌, arith, none, ok, replicate}
use keycard_go.Base.Bytes.{Bytes}
use keycard_go.SecureChannelV2.{SecureChannelV2, new_secure_channel_v2}
use keycard_go.SecureChannelV2.Handshake.{set_card_certificate}
use keycard_go.SecureChannelV2.Handshake.Trust.{IsJudged, set_card_certificate_lem}
use keycard_go.Tests.CommandSet.{toy_curve}
use keycard_go.Tlv.Writer.Output.{primitive}
use keycard_go.Types.Certificate.{
  Certificate, create_certificate, to_store_data, parse_certificate, recover_public_key,
}
use keycard_go.Types.Certificate.Created.{parse_certificate-create_certificate}
use keycard_go.Types.Signature.Recovery.{der_signature_to_rs_lem}

abbrev ca_pub : Bytes
ca_pub = 7 ∷ []

abbrev ident_pub : Bytes
ident_pub = replicate 33 2

abbrev ident_priv : Bytes
ident_priv = replicate 32 9

-- The signature (5, 6), whatever the hash.
abbrev ca_sign : Bytes → Bytes
ca_sign hash = primitive 0x30 (primitive 0x02 (5 ∷ []) ++ primitive 0x02 (6 ∷ [])) ++ []

parse_certificate-create_certificate_example :
    (c : Certificate) × (bytes : Bytes) × (parsed : Certificate) × (create_certificate toy_curve
        ca_pub ca_sign ident_pub ident_priv
      ≡ ok c)
    × (to_store_data c ≡ ok bytes)
    × (parse_certificate toy_curve bytes ≡ ok parsed)
    × (parsed.ident_pub ≡ ident_pub)
    × (parsed.signature.pub_key ≡ ca_pub)
    × (parsed.signature ≡ c.signature)
unfolding recover_public_key
parse_certificate-create_certificate_example =
    parse_certificate-create_certificate toy_curve ca_pub ca_sign ident_pub ident_priv (5 ∷ [])
      (6 ∷ []) refl (omega arith) (omega arith)
      (der_signature_to_rs_lem [] (5 ∷ []) [] (6 ∷ []) [] (omega arith) (omega arith)
        (inr (refl, omega arith)) (inr (refl, omega arith)))
      0 (omega arith) refl

-- The certificate that names the CA key 7, of one byte, for a channel that lists the card.
abbrev listing : SecureChannelV2
listing = new_secure_channel_v2 [] (ident_pub ∷ [])

abbrev cert : Certificate
cert = record {
  ident_priv = none;
  ident_pub = ident_pub;
  signature = record { pub_key = ca_pub; r = replicate 32 0; s = replicate 32 0; v = 0 };
}

set_card_certificate_lem_example :
    IsJudged listing cert (set_card_certificate toy_curve (ident_pub ++ replicate 65 0) listing)
unfolding parse_certificate recover_public_key
set_card_certificate_lem_example =
    set_card_certificate_lem toy_curve listing (ident_pub ++ replicate 65 0) cert refl
