-- ===== src/Tests/SecureChannelV2.antt =====
-- The V2 channel with a card that answers every command with 0x9000.
use keycard_go.Base.{◌≡◌, inr, refl, true, false, [], ◌∷◌, arith, some, ok, err, Result, replicate}
use keycard_go.Base.Bytes.{Bytes}
use keycard_go.Base.Exec.{Exec}
use keycard_go.Apdu.Command.{Command, new_command}
use keycard_go.Apdu.Response.{Response, parse_response}
use keycard_go.Crypto.Ccm.{aes_ccm_encrypt, aes_ccm_decrypt}
use keycard_go.SecureChannelV2.Nonce.{increment_bytes}
use keycard_go.SecureChannelV2.Acceptance.{IsJudged, receive_lem}
use keycard_go.SecureChannelV2.Protection.{
  IsKey, protected_command_lem, plaintext_after_failure, ccm_round_trip, aes_ccm_decrypt_size,
}
use keycard_go.SecureChannelV2.Sessions.{IsCard, InSync, send_protected-handle}
use keycard_go.SecureChannelV2.{
  SecureChannelV2, new_secure_channel_v2, protected_command, receive, increment_nonce,
  send_protected,
}
use keycard_go.Tests.Ciphers.{toy_aes, toy_laws}

abbrev host_key : Bytes
host_key = replicate 16 5

abbrev card_key : Bytes
card_key = replicate 16 6

abbrev opened : SecureChannelV2
opened = record (new_secure_channel_v2 [] []) {
  key_h2c = some host_key;
  key_c2h = some card_key;
  is_open = true;
}

is_host_key : IsKey toy_aes host_key
is_host_key = record { size = refl; accepted = refl }

is_card_key : IsKey toy_aes card_key
is_card_key = record { size = refl; accepted = refl }

abbrev verify_pin : Bytes
verify_pin = 0x31 ∷ 0x32 ∷ 0x33 ∷ 0x34 ∷ 0x35 ∷ 0x36 ∷ []

abbrev fine : Bytes → Bytes
fine inner = 0x90 ∷ 0x00 ∷ []

-- The card's state is its nonce.
answer : Bytes → Result Bytes → Exec Bytes Response
answer n (ok c) w =
    (ok (record { payload = c; sw1 = 0x90; sw2 = 0; sw = 0x9000 }), (increment_bytes n).0)
answer n (err e) w = (err e, w)

on_command : Result Bytes → Exec Bytes Response
unfolding answer
on_command (ok inner) w = answer w (aes_ccm_encrypt toy_aes card_key w (fine inner)) w
on_command (err e) w = (err e, w)

card_send : Command → Exec Bytes Response
unfolding on_command
card_send cmd w = on_command (aes_ccm_decrypt toy_aes host_key w cmd.payload) w

card_send-IsCard : IsCard toy_aes card_send (λ w. w) host_key card_key fine
unfolding card_send
card_send-IsCard = record {
  answers = λ w cmd inner read.
      let (c, sent, _) =
        ccm_round_trip toy_aes toy_laws card_key w is_card_key
          (aes_ccm_decrypt_size toy_aes host_key w cmd.payload inner read) (fine inner)
          (omega arith) in
      (
        record { payload = c; sw1 = 0x90; sw2 = 0; sw = 0x9000 },
        (increment_bytes w).0,
        rw (read, on_command) (rw (sent, answer)),
        refl,
        sent,
        refl,
      );
  short = λ inner. omega arith;
}

in_sync : InSync toy_aes (λ w. w) host_key card_key opened (replicate 13 0)
in_sync = record {
  h2c_key = is_host_key;
  c2h_key = is_card_key;
  has_h2c = refl;
  has_c2h = refl;
  same_nonce = refl;
  size = refl;
  bytes = omega arith;
}

send_protected-handle_example :
    (w' : Bytes) × (send_protected toy_aes card_send 0x20 0 0 verify_pin (opened, replicate 13 0)
      ≡ (parse_response (0x90 ∷ 0x00 ∷ []), (increment_nonce opened, w')))
    × InSync toy_aes (λ w. w) host_key card_key (increment_nonce opened) w'
    × ((increment_bytes (replicate 13 0)).1 ≡ false → (increment_nonce opened).is_open ≡ true)
send_protected-handle_example =
    send_protected-handle toy_aes toy_laws card_send (λ w. w) host_key card_key fine
      card_send-IsCard opened (replicate 13 0) 0x20 0 0 verify_pin in_sync refl (omega arith)

protected_command_lem_example :
    (c : Bytes) × (protected_command toy_aes 0x80 0x20 0 0 verify_pin opened
      ≡ (ok (new_command 0x80 0x18 0 0 c), opened))
    × (aes_ccm_decrypt toy_aes host_key (replicate 13 0) c
        ≡ ok (0x80 ∷ 0x20 ∷ 0 ∷ 0 ∷ 6 ∷ verify_pin))
protected_command_lem_example =
    protected_command_lem toy_aes toy_laws opened host_key 0x80 0x20 0 0 verify_pin refl refl
      is_host_key refl (omega arith)

abbrev refused : Response
refused = record { payload = []; sw1 = 0x69; sw2 = 0x82; sw = 0x6982 }

abbrev forged : Response
forged = record { payload = replicate 10 0; sw1 = 0x90; sw2 = 0; sw = 0x9000 }

receive_lem_example : IsJudged toy_aes opened card_key (ok forged)
receive_lem_example =
    receive_lem toy_aes toy_laws opened card_key refl refl is_card_key refl (ok forged)
      (omega arith)

plaintext_after_failure_example :
    protected_command toy_aes 0x80 0x20 0 0 verify_pin (receive toy_aes (ok refused) opened).1
    ≡ (ok (new_command 0x80 0x20 0 0 verify_pin), (receive toy_aes (ok refused) opened).1)
plaintext_after_failure_example =
    plaintext_after_failure toy_aes (ok refused) opened 0x80 0x20 0 0 verify_pin
      (inr (refused, refl, λ e. omega arith))
