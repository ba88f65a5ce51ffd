-- ===== src/Tests/Apdu.antt =====
-- The package apdu on concrete bytes.
use keycard_go.Base.{◌≡◌, refl, [], ◌∷◌, arith, ok}
use keycard_go.Apdu.Command.{Command, new_command, set_le, serialize, parse_command}
use keycard_go.Apdu.Command.RoundTrip.{parse_command-serialize, parse_command_forgets_le}
use keycard_go.Apdu.Response.{Response}

abbrev select_command : Command
select_command = set_le 0 (new_command 0 0xa4 4 0 (0xa0 ∷ 0 ∷ []))

serialize_select : serialize select_command ≡ 0 ∷ 0xa4 ∷ 4 ∷ 0 ∷ 2 ∷ 0xa0 ∷ 0 ∷ 0 ∷ []
unfolding serialize
serialize_select = refl

parse_command-serialize_example : parse_command (serialize select_command) ≡ (ok tt, select_command)
parse_command-serialize_example =
    parse_command-serialize select_command (omega arith) (omega arith) (λ h. cc)

abbrev get_response : Command
get_response = set_le 0x20 (new_command 0 0xc0 0 0 [])

parse_command_forgets_le_example :
    parse_command (serialize get_response) ≡ (ok tt, new_command 0 0xc0 0 0 [])
parse_command_forgets_le_example = parse_command_forgets_le get_response refl refl

abbrev wrong_pin_response : Response
wrong_pin_response = record { payload = []; sw1 = 0x63; sw2 = 0xc2; sw = 0x63c2 }
