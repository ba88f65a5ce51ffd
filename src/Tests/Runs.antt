-- ===== src/Tests/Runs.antt =====
-- A CommandSet that selects a card with a whitelisted key and opens the channel to it.
use keycard_go.Base.{
  ◌≡◌, refl, if◌then◌else◌, ◌==◌, arith, [], ◌∷◌, ◌++◌, some, none, ok, replicate,
}
use mathlib.Core.Path.{subst}
use keycard_go.Base.Bytes.{Bytes, bytes_equal}
use keycard_go.Apdu.Response.{Response, check_ok}
use keycard_go.CommandSet.{CommandSet, Outside, new_command_set_with_cas, v2_channel, send_plain}
use keycard_go.CommandSet.Opening.{select_with_index, auto_open_secure_channel}
use keycard_go.CommandSet.Runs.{select_call, auto_open_call, after, Reaches, here, and_then, calls}
use keycard_go.CommandSet.Runs.Trust.{Reaches-IsTrusted}
use keycard_go.Identifiers.{keycard_instance_aid}
use keycard_go.SecureChannelV2.{SecureChannelV2, new_secure_channel_v2}
use keycard_go.SecureChannelV2.Authentic.{HasSigned}
use keycard_go.SecureChannelV2.Handshake.{
  set_card_certificate, is_ca_trusted, is_card_whitelisted, listed,
}
use keycard_go.SecureChannelV2.Handshake.Completes.{opened_with, auto_open_completes}
use keycard_go.SecureChannelV2.Handshake.Trust.{IsTrusted}
use keycard_go.Tests.Ciphers.{toy_aes}
use keycard_go.Tests.Life.{ident, okm, one_key, one_key-IsIdentity, one_key-IsHandshake, signature}
use keycard_go.Tlv.Length.{encode_ber_length}
use keycard_go.Tlv.Writer.{integer_bytes}
use keycard_go.Tlv.Writer.Output.{primitive}
use keycard_go.Types.ApplicationInfo.{app_version, has_capability}
use keycard_go.Types.ApplicationInfo.Fields.{
  Answer, IsAnswer, answer_fields, info_of, parse_application_info_lem,
}
use keycard_go.Types.Certificate.{parse_certificate, recover_public_key}

-- Version 4.0, with a certificate.
abbrev info : Answer
info = record {
  uid = some (replicate 16 1);
  pub_key = none;
  version = 0x0400;
  status = none;
  slots = some 5;
  key_uid = replicate 32 3;
  capabilities = some 3;
  cert = some (ident ++ replicate 65 0);
}

info-IsAnswer : IsAnswer info
unfolding encode_ber_length integer_bytes
info-IsAnswer = record {
  short_uid = omega arith;
  short_pub_key = tt;
  small_version = omega arith;
  small_slots = omega arith;
  short_key_uid = omega arith;
  short_cert = omega arith;
  short_fields = omega arith;
}

abbrev right : Bytes → Response
right payload = record { payload = payload; sw1 = 0x90; sw2 = 0; sw = 0x9000 }

abbrev on_card : Outside (Unit {0})
on_card = record {
  aes = toy_aes;
  curve = one_key;
  sha512 = λ input. input;
  pairing_token = λ password. password;
  public_key_of = λ key. ok key;
  trim_space = λ text. text;
  send = λ cmd w.
      (ok (right (if cmd.ins == 0xa4 then primitive 0xa4 (answer_fields info) else signature)), w);
}

abbrev new : CommandSet
new = new_command_set_with_cas [] (ident ∷ [])

abbrev chosen : SecureChannelV2
chosen = record (new_secure_channel_v2 [] (ident ∷ [])) { card_ident_pub = some ident }

abbrev selected : CommandSet
selected = record new { sc = v2_channel chosen; application_info = some (info_of info) }

after_select : after on_card (select_call (ok []) 1) (new, tt) ≡ (selected, tt)
unfolding after select_with_index keycard_instance_aid send_plain check_ok app_version
    set_card_certificate parse_certificate recover_public_key is_ca_trusted is_card_whitelisted
    listed bytes_equal has_capability
after_select =
    rw
      (
        after,
        select_with_index,
        keycard_instance_aid,
        send_plain,
        check_ok,
        parse_application_info_lem info info-IsAnswer,
      )
      refl

abbrev salt : Bytes
salt = replicate 32 1

abbrev opened : CommandSet
opened = record selected { sc = v2_channel (opened_with (9 ∷ []) okm chosen) }

after_open : after on_card (auto_open_call (ok salt) (ok (9 ∷ []))) (selected, tt) ≡ (opened, tt)
unfolding after auto_open_secure_channel
after_open =
    rw
      (auto_open_completes one_key salt (9 ∷ []) ident ident okm one_key-IsIdentity on_card.send
        chosen tt tt (right signature) refl refl refl (one_key-IsHandshake salt (9 ∷ [])))
      refl

run : Reaches on_card (new, tt) (opened, tt)
run =
    subst (λ state. Reaches on_card (new, tt) state) after_open
      (and_then
        (subst (λ state. Reaches on_card (new, tt) state) after_select
          (and_then here (calls (select_call (ok []) 1) (new, tt))))
        (calls (auto_open_call (ok salt) (ok (9 ∷ []))) (selected, tt)))

Reaches-IsTrusted_example :
    (i : Bytes) × (some ident ≡ some i) × IsTrusted one_key [] (ident ∷ []) i × HasSigned one_key i
Reaches-IsTrusted_example =
    Reaches-IsTrusted on_card [] (ident ∷ []) tt opened tt (opened_with (9 ∷ []) okm chosen) run
      refl refl
