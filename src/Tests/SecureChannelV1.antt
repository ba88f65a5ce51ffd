-- ===== src/Tests/SecureChannelV1.antt =====
-- The V1 channel on concrete data, with the cipher of Tests.Ciphers.
use keycard_go.Base.{
  ◌≡◌, ◌≤◌, ◌%◌, ◌+◌, refl, [], ◌∷◌, ◌++◌, arith, length, take, drop, replicate, ok, err, v1,
  Result, some, ◌==◌, if◌then◌else◌, closed_after_error,
}
use keycard_go.Base.Bytes.{Bytes, bytes_equal}
use keycard_go.Base.Exec.{Exec}
use keycard_go.Apdu.Command.{Command, new_command}
use keycard_go.Apdu.Response.{Response, parse_response}
use keycard_go.Crypto.Cbc.{encrypt_data, decrypt_data, calculate_mac}
use keycard_go.Crypto.Cbc.RoundTrip.{decrypt_data-encrypt_data}
use keycard_go.Crypto.Ccm.{xor_block}
use keycard_go.Crypto.Padding.{remove_padding}
use keycard_go.SecureChannelV1.{
  SecureChannelV1, init, new_secure_channel, response_meta, protected_command, receive, update_iv,
  transmit,
}
use keycard_go.SecureChannelV1.Opening.{auto_pair, pair}
use keycard_go.SecureChannelV1.Opening.Cryptogram.{IsPairing, auto_pair_authenticates}
use keycard_go.SecureChannelV1.Protection.{
  refuses_after_close, receive_authenticates, protects_command,
}
use keycard_go.Types.Pairing.{new_pairing}
use keycard_go.Tests.Ciphers.{toy_aes, toy_laws}

abbrev key : Bytes
key = replicate 32 7

abbrev zero_iv : Bytes
zero_iv = replicate 16 0

abbrev opened : SecureChannelV1
opened = init zero_iv key key new_secure_channel

abbrev pin : Bytes
pin = 1 ∷ 2 ∷ 3 ∷ 4 ∷ 5 ∷ 6 ∷ []

abbrev refused : Response
refused = record { payload = []; sw1 = 0x69; sw2 = 0x82; sw = 0x6982 }

decrypt_data-encrypt_data_example :
    (c : Bytes) × (encrypt_data toy_aes pin key zero_iv ≡ ok c)
    × (decrypt_data toy_aes c key zero_iv ≡ ok pin)
    × (length c % 16 ≡ 0)
    × (16 ≤ length c)
    × (length c ≤ length pin + 16)
decrypt_data-encrypt_data_example =
    decrypt_data-encrypt_data toy_aes toy_laws pin key zero_iv refl refl

refuses_after_close_example :
    protected_command toy_aes 0x80 0x20 0 0 pin (receive toy_aes (ok refused) opened).1
    ≡ (err (v1 closed_after_error), (receive toy_aes (ok refused) opened).1)
unfolding receive
refuses_after_close_example =
    refuses_after_close toy_aes opened (ok refused) 0x80 0x20 0 0 pin refl refl

-- An answer that carries 9000: its MAC under the identity cipher is the sum of its blocks.
abbrev rdata : Bytes
rdata = 0x90 ∷ 0x00 ∷ 0x80 ∷ replicate 13 0

abbrev answer : Response
answer = record {
  payload = 0xb0 ∷ 0x00 ∷ 0x80 ∷ replicate 13 0 ++ rdata;
  sw1 = 0x90;
  sw2 = 0;
  sw = 0x9000;
}

abbrev good : Response
good = record { payload = []; sw1 = 0x90; sw2 = 0; sw = 0x9000 }

accepted_answer :
    receive toy_aes (ok answer) opened ≡ (ok good, record opened { iv = take 16 answer.payload })
unfolding receive decrypt_data bytes_equal update_iv calculate_mac xor_block parse_response
    remove_padding
accepted_answer = refl

receive_authenticates_example :
    (calculate_mac toy_aes (response_meta answer.payload) (drop 16 answer.payload) key
      ≡ ok (take 16 answer.payload))
    × ((plain : Bytes) × (decrypt_data toy_aes (drop 16 answer.payload) key zero_iv ≡ ok plain)
        × (parse_response plain ≡ ok good))
    × (take 16 answer.payload ≡ take 16 answer.payload)
receive_authenticates_example =
    receive_authenticates toy_aes opened answer good key
      (record opened { iv = take 16 answer.payload }) refl refl accepted_answer refl

protects_command_example :
    (encrypted : Bytes) × (mac : Bytes) × (protected_command toy_aes 0x80 0x20 0 0 pin opened
      ≡ (ok (new_command 0x80 0x20 0 0 (mac ++ encrypted)), record opened { iv = mac }))
    × (calculate_mac toy_aes
          (0x80 ∷ 0x20 ∷ 0 ∷ 0 ∷ (length encrypted + 16) ∷ replicate 11 0)
          encrypted
          key
        ≡ ok mac)
    × (decrypt_data toy_aes encrypted key zero_iv ≡ ok pin)
protects_command_example =
    protects_command toy_aes toy_laws opened key 0x80 0x20 0 0 pin refl refl refl refl refl
      (omega arith)

-- A card that knows the secret: the cryptogram and a challenge, then the index 3 and a salt.
abbrev pairing_secret : Bytes
pairing_secret = 0x5e ∷ []

abbrev truncated : Bytes → Bytes
truncated input = take 32 (input ++ replicate 32 0)

abbrev host_challenge : Bytes
host_challenge = 0xc0 ∷ 0xc1 ∷ []

abbrev answering : Bytes → Response
answering data' = record { payload = data'; sw1 = 0x90; sw2 = 0; sw = 0x9000 }

abbrev pairing_card : Command → Exec (Unit {0}) Response
pairing_card cmd state = (
  ok (
      answering (
        if cmd.p1 == 0
        then truncated (pairing_secret ++ host_challenge) ++ replicate 32 9
        else 3 ∷ replicate 8 7)),
  state,
)

abbrev outcome : Result (Unit {0}) × (SecureChannelV1 × Unit {0})
outcome =
    auto_pair toy_aes pairing_card truncated 0 pairing_secret (ok host_challenge)
      (new_secure_channel, tt)

pairs : outcome.1.0.pairing ≡ some (new_pairing (truncated (pairing_secret ++ replicate 8 7)) 3)
unfolding auto_pair pair transmit receive bytes_equal
pairs = refl

auto_pair_authenticates_example :
    IsPairing toy_aes pairing_card truncated pairing_secret 0 host_challenge new_secure_channel tt
      outcome
auto_pair_authenticates_example =
    auto_pair_authenticates toy_aes pairing_card truncated pairing_secret 0 host_challenge
      new_secure_channel tt
