-- ===== src/Tests/CommandSet.antt =====
-- The handshake of V2 and SetNDEF with a card whose curve and memory are lists of bytes.
use keycard_go.Base.{
  ℕ, zero, suc, ◌⊎◌, take, ◌*◌, ◌≡◌, refl, true, [], ◌∷◌, ◌++◌, arith, drop, length, some, ok,
  replicate,
}
use keycard_go.Base.Bytes.{Bytes, AllBytes}
use keycard_go.Base.Exec.{Exec}
use keycard_go.Apdu.Command.{Command}
use keycard_go.Apdu.Response.{Response}
use keycard_go.CommandSet.{CommandSet, Outside, new_command_set_with_cas, v2_channel}
use keycard_go.CommandSet.Ndef.{set_ndef}
use keycard_go.CommandSet.Ndef.Memory.{IsStore, written, framed, set_ndef_lem}
use keycard_go.Crypto.Curve.{Curve}
use keycard_go.SecureChannelV2.{SecureChannelV2, new_secure_channel_v2}
use keycard_go.SecureChannelV2.Handshake.{auto_open}
use keycard_go.SecureChannelV2.Handshake.Opening.{IsAutoOpening, auto_open_authenticates}
use keycard_go.Tests.Ciphers.{toy_aes}
use keycard_go.Types.ApplicationInfo.{ApplicationInfo, no_application_info_yet, app_version}

-- Every signature recovers the key 7.
abbrev pub toy_curve : Curve
toy_curve = record {
  sha256 = λ input. take 32 (input ++ replicate 32 0);
  hkdf = λ info salt ikm size. ok (replicate 32 3);
  public_of = λ key. key;
  shared_x = λ key pub_key. key;
  unmarshal = λ bytes. ok bytes;
  decompress = λ bytes. ok bytes;
  compress = λ bytes. bytes;
  ecrecover = λ hash sig. ok (7 ∷ []);
  recover_compact = λ sig hash. ok (7 ∷ []);
  parse_der = λ sig. ok ([], []);
  verify = λ r s hash key. true;
}

abbrev identified : SecureChannelV2
identified = record (new_secure_channel_v2 [] []) { card_ident_pub = some (7 ∷ []) }

abbrev right : Bytes → Response
right payload = record { payload = payload; sw1 = 0x90; sw2 = 0; sw = 0x9000 }

-- A card that answers with a key and the signature (5, 6).
abbrev signing_card : Command → Exec (Unit {0}) Response
signing_card cmd w = (ok (right (replicate 65 4 ++ (0x30 ∷ 6 ∷ 2 ∷ 1 ∷ 5 ∷ 2 ∷ 1 ∷ 6 ∷ []))), w)

auto_open_authenticates_example :
    IsAutoOpening toy_curve signing_card
      (replicate 32 1)
      (9 ∷ [])
      tt
      (some (7 ∷ []))
      (auto_open toy_curve signing_card (ok (replicate 32 1)) (ok (9 ∷ [])) (identified, tt))
auto_open_authenticates_example =
    auto_open_authenticates toy_curve signing_card (replicate 32 1) (9 ∷ []) tt identified

-- A card that is nothing but its NDEF record.
abbrev memory_card : Outside Bytes
memory_card = record {
  aes = toy_aes;
  curve = toy_curve;
  sha512 = λ input. input;
  pairing_token = λ password. password;
  public_key_of = λ key. ok key;
  trim_space = λ text. text;
  send = λ cmd memory. (ok (right []), written (4 * cmd.p2) cmd.payload memory);
}

memory_card-IsStore : IsStore memory_card.send (λ memory. memory)
memory_card-IsStore = record {
  stores = λ memory p2 chunk. (right [], written (4 * p2) chunk memory, refl, refl, refl);
}

-- Version 3.1
abbrev recent : ApplicationInfo
recent = record no_application_info_yet { version = 3 ∷ 1 ∷ [] }

abbrev with_recent : CommandSet
with_recent = record (new_command_set_with_cas [] []) { application_info = some recent }

-- 300 bytes, in two chunks.
abbrev message : Bytes
message = replicate 300 0xd1

message_bytes : (n : ℕ) → AllBytes (replicate n 0xd1)
message_bytes zero = tt
message_bytes (suc n) = (omega arith, message_bytes n)

set_ndef_lem_example :
    (memory : Bytes) × (set_ndef memory_card message
        (record with_recent { sc = v2_channel (new_secure_channel_v2 [] []) }, replicate 500 0)
      ≡ (ok tt, (record with_recent { sc = v2_channel (new_secure_channel_v2 [] []) }, memory)))
    × (((body : Bytes) × (message ≡ framed body)
          × (memory ≡ message ++ drop (length message) (replicate 500 0)))
        ⊎ (¬ ((body : Bytes) × (message ≡ framed body))
            × (memory ≡ framed message ++ drop (length (framed message)) (replicate 500 0))))
unfolding app_version
set_ndef_lem_example =
    set_ndef_lem memory_card (λ memory. memory) memory_card-IsStore with_recent
      (new_secure_channel_v2 [] []) refl recent message (replicate 500 0) refl (omega arith)
      (message_bytes 300) (omega arith)
