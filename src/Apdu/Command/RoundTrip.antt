-- ===== src/Apdu/Command/RoundTrip.antt =====
-- ParseCommand on what Serialize wrote.
use keycard_go.Base.{
  ◌<◌, ◌≡◌, false, true, [], ◌∷◌, arith, length, take-append, drop-append, length-append, ok,
  Bool-cases, inl, inr,
}
use keycard_go.Base.Bytes.{Bytes}
use keycard_go.Apdu.Command.{Command, serialize, parse_command, lc_and_data}

lc_and_data_lem : (bs : Bytes) → 0 < length bs → length bs < 256 → lc_and_data bs ≡ length bs ∷ bs
unfolding lc_and_data
lc_and_data_lem [] h k = absurd (omega arith)
lc_and_data_lem (b ∷ bs) h k = ground arith

module _ (c : Command) (some_data : 0 < length c.payload) (short : length c.payload < 256) where
  parse_with_le : c.requires_le ≡ true → parse_command (serialize c) ≡ (ok tt, c)
  unfolding serialize parse_command
  parse_with_le with_le =
      rw (with_le, lc_and_data_lem c.payload some_data short)
        (ground (
          arith,
          with_le,
          take-append c.payload (c.le ∷ []),
          drop-append c.payload (c.le ∷ []),
          length-append c.payload (c.le ∷ []),
        ))

  parse_without_le : c.requires_le ≡ false → c.le ≡ 0 → parse_command (serialize c) ≡ (ok tt, c)
  unfolding serialize parse_command
  parse_without_le without no_le =
      rw (without, lc_and_data_lem c.payload some_data short)
        (ground (
          arith,
          without,
          no_le,
          take-append c.payload [],
          drop-append c.payload [],
          length-append c.payload [],
        ))

-- A command with 1 to 255 bytes of data is parsed back whole, its Le included where it has one.
pub parse_command-serialize :
    (c : Command)
    → 0 < length c.payload
    → length c.payload < 256
    → (c.requires_le ≡ false → c.le ≡ 0)
    → parse_command (serialize c) ≡ (ok tt, c)
parse_command-serialize c some_data short no_le = elim (Bool-cases c.requires_le) [
  | inl with_le ↦ parse_with_le c some_data short with_le
  | inr without ↦ parse_without_le c some_data short without (no_le without)
]

-- A command that has an Le and no data loses the Le: the parser takes that byte for the length of
-- the data, and answers with neither.
pub parse_command_forgets_le :
    (c : Command)
    → c.payload ≡ []
    → c.requires_le ≡ true
    → parse_command (serialize c) ≡ (ok tt, record c { requires_le = false; le = 0 })
unfolding serialize parse_command
parse_command_forgets_le c empty with_le = ground arith
