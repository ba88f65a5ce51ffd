-- ===== src/Tests/Life.antt =====
-- A card that opens the V2 channel and then answers over it.
use keycard_go.Base.{
  ◌≡◌, refl, true, [], ◌∷◌, ◌++◌, arith, take, drop, some, Result, ok, err, replicate,
}
use keycard_go.Base.Bytes.{Bytes}
use keycard_go.Base.Exec.{Exec}
use keycard_go.Apdu.Command.{Command}
use keycard_go.Apdu.Response.{Response, parse_response}
use keycard_go.Crypto.Ccm.{aes_ccm_encrypt, aes_ccm_decrypt}
use keycard_go.Crypto.Curve.{Curve}
use keycard_go.SecureChannelV2.Handshake.{auto_open, parse_der_signature}
use keycard_go.SecureChannelV2.Handshake.Completes.{IsIdentity, IsHandshake}
use keycard_go.SecureChannelV2.Handshake.Der.{
  IsScalar, der_signature, parse_der_signature-der_signature,
}
use keycard_go.SecureChannelV2.Life.{Opens, auto_open-send_protected}
use keycard_go.SecureChannelV2.Nonce.{increment_bytes}
use keycard_go.SecureChannelV2.Protection.{IsKey, ccm_round_trip, aes_ccm_decrypt_size}
use keycard_go.SecureChannelV2.Sessions.{IsCard, InSync}
use keycard_go.SecureChannelV2.{
  SecureChannelV2, new_secure_channel_v2, increment_nonce, send_protected, zero_nonce,
}
use keycard_go.Tests.Ciphers.{toy_aes, toy_laws}
use keycard_go.Tests.CommandSet.{toy_curve}

abbrev pub ident : Bytes
ident = replicate 33 7

abbrev pub okm : Bytes
okm = replicate 16 5 ++ replicate 16 6

-- Every signature recovers the identity key.
abbrev pub one_key : Curve
one_key = record toy_curve { ecrecover = λ hash sig. ok ident; hkdf = λ info salt ikm size. ok okm }

abbrev scalar : Bytes
scalar = replicate 31 0 ++ (0x90 ∷ [])

pub scalar-IsScalar : IsScalar scalar
scalar-IsScalar = record { size = refl; not_zero = omega arith }

parse_der_signature-der_signature_example :
    parse_der_signature (der_signature scalar scalar ++ []) ≡ ok (scalar, scalar)
parse_der_signature-der_signature_example =
    parse_der_signature-der_signature scalar scalar [] scalar-IsScalar scalar-IsScalar

abbrev pub signature : Bytes
signature = replicate 65 4 ++ (der_signature scalar scalar ++ [])

pub one_key-IsIdentity : IsIdentity one_key ident ident
one_key-IsIdentity = record { decompressed = refl; compressed = refl; valid = refl }

pub one_key-IsHandshake :
    (salt eph_priv : Bytes) → IsHandshake one_key salt eph_priv ident ident okm signature
one_key-IsHandshake salt eph_priv = record {
  card_bytes = replicate 65 4;
  card_pub = replicate 65 4;
  r = scalar;
  s = scalar;
  rest = [];
  v = 0;
  is_payload = refl;
  size = refl;
  valid = refl;
  derived = refl;
  small = omega arith;
  is_r = scalar-IsScalar;
  is_s = scalar-IsScalar;
  recovers = refl;
}

abbrev fine : Bytes → Bytes
fine inner = 0x90 ∷ 0x00 ∷ []

-- The card's state is its nonce, or nothing before the channel is open.
answer : Bytes → Result Bytes → Exec Bytes Response
answer n (ok c) w =
    (ok (record { payload = c; sw1 = 0x90; sw2 = 0; sw = 0x9000 }), (increment_bytes n).0)
answer n (err e) w = (err e, w)

on_command : Result Bytes → Exec Bytes Response
unfolding answer
on_command (ok inner) w = answer w (aes_ccm_encrypt toy_aes (drop 16 okm) w (fine inner)) w
on_command (err e) w =
    (ok (record { payload = signature; sw1 = 0x90; sw2 = 0; sw = 0x9000 }), zero_nonce)

card_send : Command → Exec Bytes Response
unfolding on_command
card_send cmd w = on_command (aes_ccm_decrypt toy_aes (take 16 okm) w cmd.payload) w

is_h2c : IsKey toy_aes (take 16 okm)
is_h2c = record { size = refl; accepted = refl }

is_c2h : IsKey toy_aes (drop 16 okm)
is_c2h = record { size = refl; accepted = refl }

card_send-IsCard : IsCard toy_aes card_send (λ w. w) (take 16 okm) (drop 16 okm) fine
unfolding card_send
card_send-IsCard = record {
  answers = λ w cmd inner read.
      let (c, sent, _) =
        ccm_round_trip toy_aes toy_laws (drop 16 okm) w is_c2h
          (aes_ccm_decrypt_size toy_aes (take 16 okm) w cmd.payload inner read) (fine inner)
          (omega arith) in
      (
        record { payload = c; sw1 = 0x90; sw2 = 0; sw = 0x9000 },
        (increment_bytes w).0,
        rw (read, on_command) (rw (sent, answer)),
        refl,
        sent,
        refl,
      );
  short = λ inner. omega arith;
}

abbrev salt : Bytes
salt = replicate 32 1

card_send-Opens : Opens one_key card_send (λ w. w) salt (9 ∷ []) ident ident okm []
unfolding card_send aes_ccm_decrypt on_command
card_send-Opens = record {
  resp = record { payload = signature; sw1 = 0x90; sw2 = 0; sw = 0x9000 };
  w' = zero_nonce;
  answer = refl;
  status = refl;
  handshake = one_key-IsHandshake salt (9 ∷ []);
  started = refl;
}

abbrev pub identified : SecureChannelV2
identified = record (new_secure_channel_v2 [] []) { card_ident_pub = some ident }

abbrev pin : Bytes
pin = 0x31 ∷ 0x32 ∷ 0x33 ∷ 0x34 ∷ 0x35 ∷ 0x36 ∷ []

auto_open-send_protected_example :
    (sc' : SecureChannelV2) × (w' : Bytes) × (w'' : Bytes) × (auto_open one_key card_send
        (ok salt)
        (ok (9 ∷ []))
        (identified, [])
      ≡ (ok tt, (sc', w')))
    × (sc'.is_open ≡ true)
    × (send_protected toy_aes card_send 0x20 0 0 pin (sc', w')
        ≡ (parse_response (0x90 ∷ 0x00 ∷ []), (increment_nonce sc', w'')))
    × InSync toy_aes (λ w. w) (take 16 okm) (drop 16 okm) (increment_nonce sc') w''
auto_open-send_protected_example =
    auto_open-send_protected toy_aes toy_laws one_key card_send (λ w. w) salt (9 ∷ []) ident ident
      okm fine one_key-IsIdentity is_h2c is_c2h card_send-IsCard identified [] 0x20 0 0 pin refl
      card_send-Opens (omega arith)
