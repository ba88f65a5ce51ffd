-- ===== src/SecureChannelV2/Life.antt =====
-- From AutoOpen to the first exchange, with a card that opens the channel and then answers over it.
use mathlib.Core.Path.{subst}
use keycard_go.Base.{
  ℕ, ◌≤◌, ◌≡◌, refl, sym, ap, true, ◌∷◌, ◌++◌, arith, length, take, drop, some, ok,
}
use keycard_go.Base.Bytes.{Bytes, copy_into, copy_into_self}
use keycard_go.Base.Exec.{Exec}
use keycard_go.Apdu.Command.{Command, new_command}
use keycard_go.Apdu.Response.{Response, parse_response}
use keycard_go.Crypto.Aes.{Aes, AesLaws}
use keycard_go.Crypto.Curve.{Curve}
use keycard_go.SecureChannelV2.{SecureChannelV2, increment_nonce, send_protected, zero_nonce}
use keycard_go.SecureChannelV2.Handshake.{auto_open}
use keycard_go.SecureChannelV2.Handshake.Completes.{
  IsIdentity, IsHandshake, opened_with, auto_open_completes,
}
use keycard_go.SecureChannelV2.Protection.{IsKey}
use keycard_go.SecureChannelV2.Sessions.{IsCard, InSync, send_protected-handle}

module _ (aes : Aes) {W : Type 0} (nonce : W → Bytes) (okm : Bytes)
    (h2c_key : IsKey aes (take 16 okm)) (c2h_key : IsKey aes (drop 16 okm)) where
  copied : (key : Bytes) → IsKey aes key → copy_into 16 key ≡ key
  copied key k = subst (λ (n : ℕ). copy_into n key ≡ key) k.size (copy_into_self key)

  opened-InSync :
      (eph_priv : Bytes) (sc : SecureChannelV2) (w : W)
      → nonce w ≡ zero_nonce
      → InSync aes nonce (take 16 okm) (drop 16 okm) (opened_with eph_priv okm sc) w
  opened-InSync eph_priv sc w started = record {
    h2c_key = h2c_key;
    c2h_key = c2h_key;
    has_h2c = ap (λ (k : Bytes). some k) (copied (take 16 okm) h2c_key);
    has_c2h = ap (λ (k : Bytes). some k) (copied (drop 16 okm) c2h_key);
    same_nonce = sym started;
    size = refl;
    bytes = omega arith;
  }

-- The card's side of AutoOpen: it answers the handshake with 9000, and counts from zero afterwards.
pub record Opens (curve : Curve) {W : Type 0} (send : Command → Exec W Response) (nonce : W → Bytes)
    (salt eph_priv ident key okm : Bytes) (w : W) : Type 0 where
  pub resp : Response
  pub w' : W
  pub answer : send (new_command 0x80 0x10 0 0 (salt ++ curve.public_of eph_priv)) w ≡ (ok resp, w')
  pub status : resp.sw ≡ 0x9000
  pub handshake : IsHandshake curve salt eph_priv ident key okm resp.payload
  pub started : nonce w' ≡ zero_nonce

module _ (aes : Aes) (laws : AesLaws aes) (curve : Curve) {W : Type 0}
    (send : Command → Exec W Response) (nonce : W → Bytes) (salt eph_priv ident key okm : Bytes)
    (handle : Bytes → Bytes) (is_identity : IsIdentity curve ident key)
    (h2c_key : IsKey aes (take 16 okm)) (c2h_key : IsKey aes (drop 16 okm))
    (card : IsCard aes send nonce (take 16 okm) (drop 16 okm) handle) where
  -- With a card that answers the handshake with a signature by the identity key that the channel
  -- holds, and that reads and answers SECURED APDUs with the keys of HKDF, AutoOpen succeeds, and a
  -- command of at most 255 bytes is then answered by what the card's applet answers to it in the
  -- clear; both ends are in step afterwards.
  pub auto_open-send_protected :
      (sc : SecureChannelV2) (w : W) (ins p1 p2 : ℕ) (payload : Bytes)
      → sc.card_ident_pub ≡ some ident
      → Opens curve send nonce salt eph_priv ident key okm w
      → length payload ≤ 255
      → (sc' : SecureChannelV2) × (w' : W) × (w'' : W) × (auto_open curve send
            (ok salt)
            (ok eph_priv)
            (sc, w)
          ≡ (ok tt, (sc', w')))
        × (sc'.is_open ≡ true)
        × (send_protected aes send ins p1 p2 payload (sc', w') ≡ (
          parse_response (handle (0x80 ∷ ins ∷ p1 ∷ p2 ∷ length payload ∷ payload)),
          (increment_nonce sc', w''),
        ))
        × InSync aes nonce (take 16 okm) (drop 16 okm) (increment_nonce sc') w''
  auto_open-send_protected sc w ins p1 p2 payload known opens small =
      let sc' = opened_with eph_priv okm sc in
      let opened =
        auto_open_completes curve salt eph_priv ident key okm is_identity send sc w opens.w'
          opens.resp known opens.answer opens.status opens.handshake in
      let sync = opened-InSync aes nonce okm h2c_key c2h_key eph_priv sc opens.w' opens.started in
      let (w'', answered, next, _) =
        send_protected-handle aes laws send nonce (take 16 okm) (drop 16 okm) handle card sc'
          opens.w' ins p1 p2 payload sync refl small in
      (sc', opens.w', w'', opened, refl, answered, next)
