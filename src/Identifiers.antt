-- ===== src/Identifiers.antt =====
-- identifiers/identifiers.go.
use keycard_go.Base.{
  ℕ, ◌||◌, [], ◌∷◌, ◌++◌, ltb, if◌then◌else◌, Result, ok, err, command_error, instance_index,
}
use keycard_go.Base.Bytes.{Bytes}

abbrev pub keycard_development_key : Bytes
keycard_development_key =
    0xc2 ∷ 0x12 ∷ 0xe0 ∷ 0x73 ∷ 0xff ∷ 0x8b ∷ 0x4b ∷ 0xbf ∷ 0xaf ∷ 0xf4 ∷ 0xde ∷ 0x8a ∷ 0xb6 ∷ 0x55
    ∷ 0x22 ∷ 0x1f ∷ []

abbrev pub global_platform_default_key : Bytes
global_platform_default_key =
    0x40 ∷ 0x41 ∷ 0x42 ∷ 0x43 ∷ 0x44 ∷ 0x45 ∷ 0x46 ∷ 0x47 ∷ 0x48 ∷ 0x49 ∷ 0x4a ∷ 0x4b ∷ 0x4c ∷ 0x4d
    ∷ 0x4e ∷ 0x4f ∷ []

abbrev pub package_aid : Bytes
package_aid = 0xa0 ∷ 0x00 ∷ 0x00 ∷ 0x08 ∷ 0x04 ∷ 0x00 ∷ 0x01 ∷ []

abbrev pub ndef_aid : Bytes
ndef_aid = 0xa0 ∷ 0x00 ∷ 0x00 ∷ 0x08 ∷ 0x04 ∷ 0x00 ∷ 0x01 ∷ 0x02 ∷ []

abbrev pub ndef_instance_aid : Bytes
ndef_instance_aid = 0xd2 ∷ 0x76 ∷ 0x00 ∷ 0x00 ∷ 0x85 ∷ 0x01 ∷ 0x01 ∷ []

abbrev pub cash_aid : Bytes
cash_aid = 0xa0 ∷ 0x00 ∷ 0x00 ∷ 0x08 ∷ 0x04 ∷ 0x00 ∷ 0x01 ∷ 0x03 ∷ []

abbrev pub ident_aid : Bytes
ident_aid = 0xa0 ∷ 0x00 ∷ 0x00 ∷ 0x08 ∷ 0x04 ∷ 0x00 ∷ 0x01 ∷ 0x04 ∷ []

abbrev pub cash_instance_aid : Bytes
cash_instance_aid = 0xa0 ∷ 0x00 ∷ 0x00 ∷ 0x08 ∷ 0x04 ∷ 0x00 ∷ 0x01 ∷ 0x03 ∷ 0x01 ∷ []

abbrev pub ident_instance_aid : Bytes
ident_instance_aid = 0xa0 ∷ 0x00 ∷ 0x00 ∷ 0x08 ∷ 0x04 ∷ 0x00 ∷ 0x01 ∷ 0x04 ∷ 0x01 ∷ []

abbrev pub keycard_aid : Bytes
keycard_aid = 0xa0 ∷ 0x00 ∷ 0x00 ∷ 0x08 ∷ 0x04 ∷ 0x00 ∷ 0x01 ∷ 0x01 ∷ []

-- KeycardInstanceAID of an index that is not negative.
unfoldable pub keycard_instance_aid : ℕ → Result Bytes
keycard_instance_aid index =
    if ltb index 1 || ltb 0xff index
    then err (command_error instance_index)
    else ok (keycard_aid ++ (index ∷ []))
