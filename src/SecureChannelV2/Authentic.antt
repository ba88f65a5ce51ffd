-- ===== src/SecureChannelV2/Authentic.antt =====
-- What holds of a V2 channel through its life: the identity key is that of a trusted certificate, and
-- an open channel was opened by a signature of that key.
use keycard_go.Base.{◌≡◌, sym, ◌∙◌, true, false, drop, List, some, Result, ok, err}
use keycard_go.Base.Bytes.{Bytes}
use keycard_go.Base.Exec.{Exec}
use keycard_go.Apdu.Command.{Command}
use keycard_go.Apdu.Response.{Response}
use keycard_go.Crypto.Curve.{Curve}
use keycard_go.SecureChannelV2.{SecureChannelV2}
use keycard_go.SecureChannelV2.Handshake.{transcript_hash, auto_open}
use keycard_go.SecureChannelV2.Handshake.Authentication.{IsSignature}
use keycard_go.SecureChannelV2.Handshake.Identity.{
  auto_open_identity, auto_open_no_salt, auto_open_no_key,
}
use keycard_go.SecureChannelV2.Handshake.Opening.{IsAutoOpening, auto_open_authenticates}
use keycard_go.SecureChannelV2.Handshake.Trust.{IsTrusted}
use keycard_go.SecureChannelV2.Identity.{Follows}

module _ (curve : Curve) where
  -- A signature of the transcript of some handshake by the identity key.
  abbrev pub HasSigned : Bytes → Type 0
  HasSigned ident =
      (salt : Bytes) × (client_pub : Bytes) × (card_pub : Bytes) × (signature : Bytes) × IsSignature
        curve (transcript_hash curve salt client_pub card_pub) signature ident

  module _ (cas whitelisted : List Bytes) where
    -- The identity key of an open channel.
    abbrev pub IsOpenFor : SecureChannelV2 → Type 0
    IsOpenFor sc = (ident : Bytes) × (sc.card_ident_pub ≡ some ident) × HasSigned ident

    abbrev pub IsAuthentic : SecureChannelV2 → Type 0
    IsAuthentic sc =
        ((ident : Bytes) → sc.card_ident_pub ≡ some ident → IsTrusted curve cas whitelisted ident)
        × (sc.is_open ≡ true → IsOpenFor sc)

    pub Follows-IsAuthentic :
        (sc sc' : SecureChannelV2) → Follows sc sc' → IsAuthentic sc → IsAuthentic sc'
    Follows-IsAuthentic sc sc' (same, closes) (trusted, signed) = (
      (λ ident known. trusted ident (sym same ∙ known)),
      λ opened. let (ident, known, by) = signed (closes opened) in (ident, same ∙ known, by),
    )

    closed-IsAuthentic :
        (sc sc' : SecureChannelV2)
        → sc'.card_ident_pub ≡ sc.card_ident_pub
        → sc'.is_open ≡ false
        → IsAuthentic sc
        → IsAuthentic sc'
    closed-IsAuthentic sc sc' same closed h =
        Follows-IsAuthentic sc sc' (same, λ opened. cc (closed, opened)) h

    module _ {W : Type 0} (send : Command → Exec W Response) where
      outcome-IsAuthentic :
          (salt eph_priv : Bytes) (w : W) (sc : SecureChannelV2)
          (outcome : Result (Unit {0}) × (SecureChannelV2 × W))
          → IsAutoOpening curve send salt eph_priv w sc.card_ident_pub outcome
          → outcome.1.0.card_ident_pub ≡ sc.card_ident_pub
          → IsAuthentic sc
          → IsAuthentic outcome.1.0
      outcome-IsAuthentic salt eph_priv w sc (err e, (sc', w')) closed same h =
          closed-IsAuthentic sc sc' same closed h
      outcome-IsAuthentic salt eph_priv w sc (ok ready, (sc', w')) opening same h =
          let (resp, _, _, (card_pub, okm, ident, _, _, known, by, _, _, _, _)) = opening in
          (
            (λ i found. h.0 i (sym same ∙ found)),
            λ opened. (
              ident,
              same ∙ known,
              (salt, curve.public_of eph_priv, card_pub, drop 65 resp.payload, by),
            ),
          )

      pub auto_open-IsAuthentic :
          (salt eph_priv : Result Bytes) (sc : SecureChannelV2) (w : W)
          → IsAuthentic sc
          → IsAuthentic (auto_open curve send salt eph_priv (sc, w)).1.0
      auto_open-IsAuthentic (err e) eph_priv sc w h =
          closed-IsAuthentic sc (auto_open curve send (err e) eph_priv (sc, w)).1.0
            (auto_open_identity curve send (err e) eph_priv sc w)
            (auto_open_no_salt curve send e eph_priv sc w) h
      auto_open-IsAuthentic (ok salt) (err e) sc w h =
          closed-IsAuthentic sc (auto_open curve send (ok salt) (err e) (sc, w)).1.0
            (auto_open_identity curve send (ok salt) (err e) sc w)
            (auto_open_no_key curve send salt e sc w) h
      auto_open-IsAuthentic (ok salt) (ok eph_priv) sc w h =
          outcome-IsAuthentic salt eph_priv w sc
            (auto_open curve send (ok salt) (ok eph_priv) (sc, w))
            (auto_open_authenticates curve send salt eph_priv w sc)
            (auto_open_identity curve send (ok salt) (ok eph_priv) sc w) h
