-- ===== src/SecureChannelV2/Handshake/Identity.antt =====
-- AutoOpen leaves the identity key of the channel as it was.
use keycard_go.Base.{
  ◌+◌, ◌≡◌, refl, Bool, true, false, not, ◌++◌, ltb, ◌==◌, if◌then◌else◌, length, drop, some,
  Result, ok, err, Error,
}
use keycard_go.Base.Bytes.{Bytes}
use keycard_go.Base.Exec.{Exec}
use keycard_go.Apdu.Command.{Command, new_command}
use keycard_go.Apdu.Response.{Response, sw_ok}
use keycard_go.Crypto.Curve.{Curve}
use keycard_go.SecureChannelV2.{SecureChannelV2, close, zeroize_keys}
use keycard_go.SecureChannelV2.Handshake.{
  with_keys, authenticated, keyed, with_card_key, process_handshake_response, handshake_answer,
  after_answer, auto_open, salted, open_with, verify_card_signature, pubkey_size,
}

abbrev Same : SecureChannelV2 → SecureChannelV2 → Type 0
Same sc sc' = sc'.card_ident_pub ≡ sc.card_ident_pub

Same-if :
    {A : Type 0} (b : Bool) (sc : SecureChannelV2) (x y : A × SecureChannelV2)
    → Same sc x.1
    → Same sc y.1
    → Same sc (if b then x else y).1
Same-if true sc x y hx hy = hx
Same-if false sc x y hx hy = hy

module _ (curve : Curve) where
  authenticated-Same :
      (result : Result (Unit {0})) (sc : SecureChannelV2)
      → Same sc (authenticated curve result sc).1
  unfolding authenticated zeroize_keys
  authenticated-Same (err e) sc = refl
  authenticated-Same (ok done) sc = refl

  keyed-Same :
      (salt client_pub card_pub signature : Bytes) (okm : Result Bytes) (sc : SecureChannelV2)
      → Same sc (keyed curve salt client_pub card_pub signature okm sc).1
  unfolding keyed with_keys
  keyed-Same salt client_pub card_pub signature (err e) sc = refl
  keyed-Same salt client_pub card_pub signature (ok okm) sc =
      authenticated-Same
        (verify_card_signature curve salt client_pub card_pub signature (with_keys curve okm sc))
        (with_keys curve okm sc)

  with_card_key-Same :
      (salt eph_priv signature : Bytes) (card_pub : Result Bytes) (sc : SecureChannelV2)
      → Same sc (with_card_key curve salt eph_priv signature card_pub sc).1
  unfolding with_card_key
  with_card_key-Same salt eph_priv signature (err e) sc = refl
  with_card_key-Same salt eph_priv signature (ok card_pub) sc =
      keyed-Same salt (curve.public_of eph_priv) card_pub signature _ sc

  response-Same :
      (salt eph_priv response : Bytes) (sc : SecureChannelV2)
      → Same sc (process_handshake_response curve salt eph_priv response sc).1
  unfolding process_handshake_response
  response-Same salt eph_priv response sc =
      Same-if (ltb (length response) (pubkey_size + 2)) sc _ _ refl
        (with_card_key-Same salt eph_priv (drop pubkey_size response) _ sc)

  module _ {W : Type 0} (send : Command → Exec W Response) where
    answer-Same :
        (salt eph_priv : Bytes) (answer : Result Response) (sc : SecureChannelV2)
        → Same sc (after_answer curve send salt eph_priv answer sc).1
    unfolding after_answer handshake_answer
    answer-Same salt eph_priv (err e) sc = refl
    answer-Same salt eph_priv (ok resp) sc = same (not (resp.sw == sw_ok)) refl
      where
        same :
            (b : Bool)
            → (not (resp.sw == sw_ok)) ≡ b
            → Same sc (handshake_answer curve send salt eph_priv resp sc).1
        same true h = rw h refl
        same false h = rw h (response-Same salt eph_priv resp.payload sc)

    open_with-Same :
        (salt : Bytes) (eph_priv : Result Bytes) (sc : SecureChannelV2) (w : W)
        → Same sc (open_with curve send salt eph_priv (sc, w)).1.0
    unfolding open_with
    open_with-Same salt (err e) sc w = refl
    open_with-Same salt (ok eph_priv) sc w =
        answer-Same salt eph_priv
          (send (new_command 0x80 0x10 0 0 (salt ++ curve.public_of eph_priv)) w).0
          (record sc { client_eph_priv_key = some eph_priv })

    pub auto_open_identity :
        (salt eph_priv : Result Bytes) (sc : SecureChannelV2) (w : W)
        → (auto_open curve send salt eph_priv (sc, w)).1.0.card_ident_pub ≡ sc.card_ident_pub
    unfolding auto_open salted
    auto_open_identity (err e) eph_priv sc w = refl
    auto_open_identity (ok salt) eph_priv sc w = open_with-Same salt eph_priv (close sc) w

    -- Without random bytes the channel stays closed.
    pub auto_open_no_salt :
        (e : Error) (eph_priv : Result Bytes) (sc : SecureChannelV2) (w : W)
        → (auto_open curve send (err e) eph_priv (sc, w)).1.0.is_open ≡ false
    unfolding auto_open salted
    auto_open_no_salt e eph_priv sc w = refl

    pub auto_open_no_key :
        (salt : Bytes) (e : Error) (sc : SecureChannelV2) (w : W)
        → (auto_open curve send (ok salt) (err e) (sc, w)).1.0.is_open ≡ false
    unfolding auto_open salted open_with
    auto_open_no_key salt e sc w = refl
