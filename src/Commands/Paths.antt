-- ===== src/Commands/Paths.antt =====
-- commands.go: the commands that take the text of a derivation path.
use keycard_go.Base.{
  ℕ, Bool, true, false, not, ◌&&◌, ◌||◌, List, [], ◌∷◌, ◌++◌, ltb, ◌==◌, if◌then◌else◌, length,
  bit_or, Result, ok, err, path, not_absolute, command_error, bad_data_length,
}
use keycard_go.Base.Bytes.{Bytes}
use keycard_go.Apdu.Command.{Command, new_command}
use keycard_go.Commands.{cla_gp}
use keycard_go.Constants.Instructions.{
  ins_derive_key, ins_export_key, ins_set_pinless_path, ins_sign,
}
use keycard_go.Constants.Parameters.{
  p1_derive_key_from_master, p1_derive_key_from_parent, p1_derive_key_from_current, p1_sign_derive,
  p1_sign_derive_and_make_current,
}
use keycard_go.DerivationPath.Decoder.{StartingPoint, master, parent, current, decode}
use keycard_go.DerivationPath.KeyPath.{number_bytes}

-- `for _, segment := range path { binary.Write(data, binary.BigEndian, segment) }`
unfoldable pub segment_bytes : List ℕ → Bytes
segment_bytes [] = []
segment_bytes (i ∷ rest) = number_bytes i ++ segment_bytes rest

unfoldable pub derivation_p1_from_starting_point : StartingPoint → ℕ
derivation_p1_from_starting_point master = p1_derive_key_from_master
derivation_p1_from_starting_point parent = p1_derive_key_from_parent
derivation_p1_from_starting_point current = p1_derive_key_from_current

is_master : StartingPoint → Bool
is_master master = true
is_master parent = false
is_master current = false

with_path :
    (StartingPoint × List ℕ → Result Command) → Result (StartingPoint × List ℕ) → Result Command
with_path build (ok decoded) = build decoded
with_path build (err e) = err e

unfoldable pub new_command_derive_key : Bytes → Result Command
unfolding with_path
new_command_derive_key path_text =
    with_path
      (λ decoded. ok (
        new_command cla_gp ins_derive_key (derivation_p1_from_starting_point decoded.0) 0
          (segment_bytes decoded.1)))
      (decode path_text)

unfoldable pub new_command_export_key : ℕ → ℕ → Bytes → Result Command
unfolding with_path
new_command_export_key p1 p2 path_text =
    with_path
      (λ decoded. ok (
        new_command cla_gp ins_export_key (bit_or p1 (derivation_p1_from_starting_point decoded.0))
          p2 (segment_bytes decoded.1)))
      (decode path_text)

absolute : StartingPoint × List ℕ → Result Command
unfolding is_master
absolute (start, indexes) =
    if ltb 0 (length indexes) && not (is_master start)
    then err (path not_absolute)
    else ok (new_command cla_gp ins_set_pinless_path 0 0 (segment_bytes indexes))

unfoldable pub new_command_set_pinless_path : Bytes → Result Command
unfolding with_path absolute
new_command_set_pinless_path path_text = with_path absolute (decode path_text)

unfoldable pub new_command_sign : Bytes → ℕ → ℕ → Bytes → Result Command
unfolding with_path
new_command_sign payload p1 p2 path_text =
    if not (length payload == 32)
    then err (command_error bad_data_length)
    else if p1 == p1_sign_derive || p1 == p1_sign_derive_and_make_current
    then with_path
        (λ decoded. ok (new_command cla_gp ins_sign p1 p2 (payload ++ segment_bytes decoded.1)))
        (decode path_text)
    else ok (new_command cla_gp ins_sign p1 p2 payload)
