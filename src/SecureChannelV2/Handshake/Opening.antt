-- ===== src/SecureChannelV2/Handshake/Opening.antt =====
-- When AutoOpen of the V2 channel opens it.
use keycard_go.Base.{
  ℕ, ◌+◌, ◌≡◌, refl, inl, inr, Bool, Bool-cases, true, false, ◌++◌, arith, ltb, ◌==◌, if◌then◌else◌,
  length, take, drop, Option, some, Result, ok, err,
}
use keycard_go.Base.Bytes.{Bytes, copy_into}
use keycard_go.Base.Exec.{Exec}
use keycard_go.Apdu.Command.{Command, new_command}
use keycard_go.Apdu.Response.{Response, sw_ok}
use keycard_go.Crypto.Curve.{Curve}
use keycard_go.SecureChannelV2.{SecureChannelV2, close, zeroize_keys, zero_nonce}
use keycard_go.SecureChannelV2.Handshake.{
  transcript_hash, verify_card_signature, with_keys, authenticated, keyed, with_card_key,
  process_handshake_response, handshake_answer, after_answer, auto_open, salted, open_with,
  pubkey_size, protocol_label,
}
use keycard_go.SecureChannelV2.Handshake.Authentication.{Done, IsSignature, signed_for_lem}

module _ (curve : Curve) where
  -- What the card's answer shows of it, and the keys that both ends have then.
  module _ (salt eph_priv response : Bytes) where
    abbrev pub IsOpening : Option Bytes → Result (Unit {0}) × SecureChannelV2 → Type 0
    IsOpening ident (ok done, sc) =
        (card_pub : Bytes) × (okm : Bytes) × (i : Bytes) × (curve.unmarshal
            (take pubkey_size response)
          ≡ ok card_pub)
        × (curve.hkdf protocol_label salt (curve.shared_x eph_priv card_pub) 32 ≡ ok okm)
        × (ident ≡ some i)
        × IsSignature curve (transcript_hash curve salt (curve.public_of eph_priv) card_pub)
            (drop pubkey_size response) i
        × (sc.key_h2c ≡ some (copy_into 16 (take 16 okm)))
        × (sc.key_c2h ≡ some (copy_into 16 (drop 16 okm)))
        × (sc.nonce_counter ≡ zero_nonce)
        × (sc.is_open ≡ true)
    IsOpening ident (err e, sc) = sc.is_open ≡ false

    authenticated_lem :
        (result : Result (Unit {0})) (card_pub okm : Bytes) (sc : SecureChannelV2)
        → sc.is_open ≡ false
        → curve.unmarshal (take pubkey_size response) ≡ ok card_pub
        → curve.hkdf protocol_label salt (curve.shared_x eph_priv card_pub) 32 ≡ ok okm
        → Done curve
            ((i : Bytes) × (sc.card_ident_pub ≡ some i)
              × IsSignature curve
                  (transcript_hash curve salt (curve.public_of eph_priv) card_pub)
                  (drop pubkey_size response)
                  i)
            result
        → IsOpening sc.card_ident_pub (authenticated curve result (with_keys curve okm sc))
    unfolding authenticated with_keys zeroize_keys
    authenticated_lem (err e) card_pub okm sc closed found derived signed = closed
    authenticated_lem (ok done) card_pub okm sc closed found derived (i, known, signed) =
        (card_pub, okm, i, found, derived, known, signed, refl, refl, refl, refl)

    keyed_lem :
        (card_pub : Bytes) (okm : Result Bytes) (sc : SecureChannelV2)
        → sc.is_open ≡ false
        → curve.unmarshal (take pubkey_size response) ≡ ok card_pub
        → curve.hkdf protocol_label salt (curve.shared_x eph_priv card_pub) 32 ≡ okm
        → IsOpening sc.card_ident_pub (
            keyed curve salt (curve.public_of eph_priv) card_pub (drop pubkey_size response) okm sc)
    unfolding keyed verify_card_signature with_keys
    keyed_lem card_pub (err e) sc closed found derived = closed
    keyed_lem card_pub (ok okm) sc closed found derived =
        authenticated_lem _ card_pub okm sc closed found derived (
          signed_for_lem curve (transcript_hash curve salt (curve.public_of eph_priv) card_pub)
            (drop pubkey_size response) sc.card_ident_pub)

    with_card_key_lem :
        (card_pub : Result Bytes) (sc : SecureChannelV2)
        → sc.is_open ≡ false
        → curve.unmarshal (take pubkey_size response) ≡ card_pub
        → IsOpening sc.card_ident_pub
            (with_card_key curve salt eph_priv (drop pubkey_size response) card_pub sc)
    unfolding with_card_key
    with_card_key_lem (err e) sc closed found = closed
    with_card_key_lem (ok card_pub) sc closed found =
        keyed_lem card_pub (curve.hkdf protocol_label salt (curve.shared_x eph_priv card_pub) 32) sc
          closed found refl

    IsOpening-if :
        (b : Bool) (ident : Option Bytes) (x y : Result (Unit {0}) × SecureChannelV2)
        → IsOpening ident x
        → IsOpening ident y
        → IsOpening ident (if b then x else y)
    IsOpening-if true ident x y hx hy = hx
    IsOpening-if false ident x y hx hy = hy

    response_lem :
        (sc : SecureChannelV2)
        → sc.is_open ≡ false
        → IsOpening sc.card_ident_pub (process_handshake_response curve salt eph_priv response sc)
    unfolding process_handshake_response
    response_lem sc closed =
        IsOpening-if (ltb (length response) (pubkey_size + 2)) sc.card_ident_pub _ _ closed
          (with_card_key_lem (curve.unmarshal (take pubkey_size response)) sc closed refl)

    -- The same of an answer with status 9000.
    abbrev IsAnswered : ℕ → Option Bytes → Result (Unit {0}) × SecureChannelV2 → Type 0
    IsAnswered sw ident (ok done, sc) = (sw ≡ sw_ok) × IsOpening ident (ok done, sc)
    IsAnswered sw ident (err e, sc) = sc.is_open ≡ false

    IsAnswered-ok :
        (sw : ℕ) (ident : Option Bytes) (outcome : Result (Unit {0}) × SecureChannelV2)
        → sw ≡ sw_ok
        → IsOpening ident outcome
        → IsAnswered sw ident outcome
    IsAnswered-ok sw ident (ok done, sc) h opening = (h, opening)
    IsAnswered-ok sw ident (err e, sc) h opening = opening

  module _ {W : Type 0} (send : Command → Exec W Response) (salt eph_priv : Bytes) (w : W) where
    handshake_answer_lem :
        (resp : Response) (sc : SecureChannelV2)
        → sc.is_open ≡ false
        → IsAnswered salt eph_priv resp.payload resp.sw sc.card_ident_pub
            (handshake_answer curve send salt eph_priv resp sc)
    unfolding handshake_answer
    handshake_answer_lem resp sc closed = elim (Bool-cases (resp.sw == sw_ok)) [
      | inl right ↦ rw right (
          IsAnswered-ok salt eph_priv resp.payload resp.sw sc.card_ident_pub _
            (ground (arith, right)) (response_lem salt eph_priv resp.payload sc closed))
      | inr wrong ↦ rw wrong closed
    ]

    -- The outcome of AutoOpen: an open channel, or an error and a closed one.
    abbrev pub IsAutoOpening : Option Bytes → Result (Unit {0}) × (SecureChannelV2 × W) → Type 0
    IsAutoOpening ident (ok done, (sc, w')) =
        (resp : Response) × (send (new_command 0x80 0x10 0 0 (salt ++ curve.public_of eph_priv)) w
          ≡ (ok resp, w'))
        × (resp.sw ≡ sw_ok)
        × IsOpening salt eph_priv resp.payload ident (ok done, sc)
    IsAutoOpening ident (err e, (sc, w')) = sc.is_open ≡ false

    answered_lem :
        (resp : Response) (w' : W) (ident : Option Bytes)
        (outcome : Result (Unit {0}) × SecureChannelV2)
        → send (new_command 0x80 0x10 0 0 (salt ++ curve.public_of eph_priv)) w ≡ (ok resp, w')
        → IsAnswered salt eph_priv resp.payload resp.sw ident outcome
        → IsAutoOpening ident (outcome.0, (outcome.1, w'))
    answered_lem resp w' ident (ok done, sc) sent (right, opening) = (resp, sent, right, opening)
    answered_lem resp w' ident (err e, sc) sent closed = closed

    sent_lem :
        (answer : Result Response × W) (sc : SecureChannelV2)
        → sc.is_open ≡ false
        → send (new_command 0x80 0x10 0 0 (salt ++ curve.public_of eph_priv)) w ≡ answer
        → (let (result, w') = answer in
            let (done, sc') = after_answer curve send salt eph_priv result sc in
            IsAutoOpening sc.card_ident_pub (done, (sc', w')))
    unfolding after_answer
    sent_lem (err e, w') sc closed sent = closed
    sent_lem (ok resp, w') sc closed sent =
        answered_lem resp w' sc.card_ident_pub (handshake_answer curve send salt eph_priv resp sc)
          sent (handshake_answer_lem resp sc closed)

    -- AutoOpen returns an open channel only when the card answered 9000 with a signature of the
    -- transcript that gives back the identity key known to the channel; the session keys are then
    -- those of the shared secret, and the nonce is zero. With any error the channel is closed.
    pub auto_open_authenticates :
        (sc : SecureChannelV2)
        → IsAutoOpening sc.card_ident_pub (auto_open curve send (ok salt) (ok eph_priv) (sc, w))
    unfolding auto_open salted open_with
    auto_open_authenticates sc =
        sent_lem (send (new_command 0x80 0x10 0 0 (salt ++ curve.public_of eph_priv)) w)
          (record (close sc) { client_eph_priv_key = some eph_priv }) refl refl
