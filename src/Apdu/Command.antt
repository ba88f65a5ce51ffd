-- ===== src/Apdu/Command.antt =====
-- apdu/command.go. Writes into a bytes.Buffer do not fail, so Serialize has no error.
pub mod RoundTrip
use keycard_go.Base.{
  ℕ, Bool, false, true, [], ◌∷◌, ◌++◌, ltb, if◌then◌else◌, length, get_or, take, drop, Result, ok,
  err, bad_raw_command,
}
use keycard_go.Base.Bytes.{Bytes, uint8}
use keycard_go.Base.Exec.{Exec}

-- The field Data is `payload`.
pub record Command : Type 0 where
  pub cla : ℕ
  pub ins : ℕ
  pub p1 : ℕ
  pub p2 : ℕ
  pub payload : Bytes
  pub le : ℕ
  pub requires_le : Bool

abbrev pub new_command : ℕ → ℕ → ℕ → ℕ → Bytes → Command
new_command cla ins p1 p2 payload = record {
  cla = cla;
  ins = ins;
  p1 = p1;
  p2 = p2;
  payload = payload;
  le = 0;
  requires_le = false;
}

abbrev pub set_le : ℕ → Command → Command
set_le le c = record c { requires_le = true; le = le }

lc_and_data : Bytes → Bytes
lc_and_data [] = []
lc_and_data (b ∷ bs) = uint8 (length (b ∷ bs)) ∷ b ∷ bs

unfoldable pub serialize : Command → Bytes
unfolding lc_and_data
serialize c =
    c.cla
    ∷ c.ins
    ∷ c.p1
    ∷ c.p2
    ∷ (lc_and_data c.payload ++ (if c.requires_le then c.le ∷ [] else []))

-- The reads after the header: one that meets the end of the input ends the call without an error.
read_le : Bytes → Exec Command Unit
read_le [] c = (ok tt, c)
read_le (le ∷ rest) c = (ok tt, set_le le c)

read_body : Bytes → Exec Command Unit
unfolding read_le
read_body [] c = (ok tt, c)
read_body (lc ∷ rest) c =
    if ltb (length rest) lc
    then (ok tt, c)
    else read_le (drop lc rest) (record c { payload = take lc rest })

unfoldable pub deserialize : Bytes → Exec Command Unit
unfolding read_body
deserialize raw c =
    if ltb (length raw) 4
    then (err bad_raw_command, c)
    else read_body (drop 4 raw) (record c {
      cla = get_or raw 0 0;
      ins = get_or raw 1 0;
      p1 = get_or raw 2 0;
      p2 = get_or raw 3 0;
    })

-- The command comes back beside an error too.
unfoldable pub parse_command : Bytes → Result (Unit {0}) × Command
unfolding deserialize
parse_command raw = deserialize raw (new_command 0 0 0 0 [])
