-- ===== src/Types/CardStatus.antt =====
-- types/card_status.go. The names of the life cycles are constructors.
use keycard_go.Base.{ℕ, [], ◌∷◌, ◌==◌, if◌then◌else◌, Result, ok, err, parsing, life_cycle_length}
use keycard_go.Base.Bytes.{Bytes}
use keycard_go.Base.Exec.{Exec, pure, raise, ◌>>=◌, ◌>>◌}
use keycard_go.Tlv.Reader.{
  BerTlvReader, new_ber_tlv_reader, read_primitive, skip_primitive, read_tag,
}

abbrev pub tag_get_status_template : ℕ
tag_get_status_template = 0xe3

pub data LifeCycle : Type 0 where
  op_ready initialized secured card_locked terminated unknown : LifeCycle

-- The method String.
unfoldable pub life_cycle : ℕ → LifeCycle
life_cycle lc =
    if lc == 0x01
    then op_ready
    else if lc == 0x07
    then initialized
    else if lc == 0x0f
    then secured
    else if lc == 0x7f
    then card_locked
    else if lc == 0xff
    then terminated
    else unknown

one_byte : Bytes → Exec BerTlvReader ℕ
one_byte (lc ∷ []) = pure lc
one_byte _ = raise (parsing life_cycle_length)

read_life_cycle : Exec BerTlvReader ℕ
unfolding one_byte
read_life_cycle = do skip_primitive; tag ← read_tag; lc ← read_primitive 0x70; one_byte lc

in_template : Result Bytes → Result ℕ
unfolding read_life_cycle
in_template (ok tpl) = (read_life_cycle (new_ber_tlv_reader tpl)).0
in_template (err e) = err e

-- The life cycle byte of the card.
unfoldable pub parse_card_status : Bytes → Result ℕ
unfolding in_template
parse_card_status input =
    in_template (read_primitive tag_get_status_template (new_ber_tlv_reader input)).0
