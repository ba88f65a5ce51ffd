-- ===== src/GlobalPlatform/Load.antt =====
-- LoadCommandStream of globalplatform/load.go, and the loop of CommandSet.LoadPackage that drives it.
pub mod Blocks
use keycard_go.Base.{
  ℕ, zero, suc, ◌+◌, ◌/◌, Bool, true, false, List, [], ◌∷◌, ◌==◌, if◌then◌else◌, length, take, drop,
}
use keycard_go.Base.Bytes.{Bytes, uint8}
use keycard_go.Apdu.Command.{Command, new_command}

abbrev pub block_size : ℕ
block_size = 247

abbrev pub p1_load_more_blocks : ℕ
p1_load_more_blocks = 0x00

abbrev pub p1_load_last_block : ℕ
p1_load_last_block = 0x80

-- The bytes.Reader `data` is the bytes that it has not read yet.
pub record LoadCommandStream : Type 0 where
  pub unread : Bytes
  pub current_index : ℕ
  pub current_data : Bytes
  pub p1 : ℕ
  pub blocks_count : ℕ

-- Of the encoded files; the quotient of the lengths, rounded up.
abbrev pub new_load_command_stream : Bytes → LoadCommandStream
new_load_command_stream encoded = record {
  unread = encoded;
  current_index = 0;
  current_data = [];
  p1 = p1_load_more_blocks;
  blocks_count = (length encoded + 246) / block_size;
}

unfoldable pub next : LoadCommandStream → Bool × LoadCommandStream
next s =
    if length s.unread == 0
    then (false, s)
    else let left = drop block_size s.unread in
      (
        true,
        record s {
          unread = left;
          current_data = take block_size s.unread;
          current_index = uint8 (s.current_index + 1);
          p1 = if length left == 0 then p1_load_last_block else s.p1;
        },
      )

-- A difference of uint8: 255 stands for -1.
unfoldable pub index : LoadCommandStream → ℕ
index s = uint8 (s.current_index + 255)

unfoldable pub get_command : LoadCommandStream → Command
get_command s = new_command 0x80 0xe8 s.p1 (index s) s.current_data

-- The commands that `for load.Next() { ... load.GetCommand() ... }` sends when every answer is
-- good. A round reads a byte at least, so as many rounds as bytes are enough.
unfoldable pub load_loop : ℕ → LoadCommandStream → List Command
load_loop zero s = []
load_loop (suc rounds) s =
    let (more, s') = next s in
    let rest = load_loop rounds s' in if more then get_command s' ∷ rest else []
