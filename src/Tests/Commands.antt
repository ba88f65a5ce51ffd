-- ===== src/Tests/Commands.antt =====
-- The command builders on concrete arguments.
use keycard_go.Base.{◌≡◌, refl, [], ◌∷◌, some}
use keycard_go.Base.Bytes.{Bytes}
use keycard_go.Commands.Requests.{unblock_pin, command, meant, read_request, read_request-command}

abbrev puk : Bytes
puk = 1 ∷ 2 ∷ 3 ∷ 4 ∷ 5 ∷ 6 ∷ 7 ∷ 8 ∷ 9 ∷ 0 ∷ 1 ∷ 2 ∷ []

abbrev new_pin : Bytes
new_pin = 6 ∷ 5 ∷ 4 ∷ 3 ∷ 2 ∷ 1 ∷ []

read_request-command_example :
    read_request (command (unblock_pin puk new_pin)) ≡ some (meant (unblock_pin puk new_pin))
read_request-command_example = read_request-command (unblock_pin puk new_pin) refl
