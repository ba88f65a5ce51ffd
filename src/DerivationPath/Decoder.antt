-- ===== src/DerivationPath/Decoder.antt =====
-- derivationpath/decoder.go: a state machine over the bytes of a path. The field `f`, the parse
-- function to call next, is the mode.
pub mod Steps
pub mod RoundTrip
pub mod Rounds
use keycard_go.Base.{
  ℕ, zero, suc, ◌+◌, ◌-◌, Bool, true, false, ◌&&◌, ◌||◌, List, [], ◌∷◌, ◌++◌, ltb, leb, ◌==◌,
  if◌then◌else◌, length, Option, none, some, Result, ok, err, Error, path, path_at, PathError,
  end_of_text, expected_number_at_end, bad_number, expected_separator, expected_number,
  index_too_large, out_of_rounds,
}
use keycard_go.Base.Bytes.{Bytes}
use keycard_go.Base.Exec.{Exec, raise, ◌>>=◌, ◌>>◌}
use keycard_go.Base.Decimal.{parse_uint32}

abbrev pub token_master : ℕ
token_master = 0x6d

abbrev pub token_separator : ℕ
token_separator = 0x2f

abbrev pub token_hardened : ℕ
token_hardened = 0x27

abbrev pub token_dot : ℕ
token_dot = 0x2e

abbrev pub hardened_start : ℕ
hardened_start = 0x80000000

pub data StartingPoint : Type 0 where
  master current parent : StartingPoint

pub data Mode : Type 0 where
  at_start at_separator at_segment : Mode

-- The strings.Reader `r` is the bytes that it has not read yet.
pub record Decoder : Type 0 where
  pub unread : Bytes
  pub mode : Mode
  pub pos : ℕ
  pub segments : List ℕ
  pub start : StartingPoint
  pub current_token : Bytes
  pub current_token_hardened : Bool

abbrev pub new_decoder : Bytes → Decoder
new_decoder text = record {
  unread = text;
  mode = at_start;
  pos = 0;
  segments = [];
  start = current;
  current_token = [];
  current_token_hardened = false;
}

read_from : Bytes → Exec Decoder ℕ
read_from [] d = (err (path end_of_text), d)
read_from (b ∷ rest) d = (ok b, record d { unread = rest; pos = d.pos + 1 })

unfoldable pub read_byte : Exec Decoder ℕ
unfolding read_from
read_byte d = read_from d.unread d

-- Of the byte that was read last.
abbrev pub unread_byte : ℕ → Decoder → Decoder
unread_byte b d = record d { unread = b ∷ d.unread; pos = d.pos - 1 }

second_byte : ℕ → Exec Decoder (Unit {0})
second_byte b d =
    if b == token_dot
    then (ok tt, record d { mode = at_separator; start = parent })
    else (ok tt, unread_byte b (record d { mode = at_separator; start = current }))

first_byte : ℕ → Exec Decoder (Unit {0})
unfolding second_byte
first_byte b d =
    if b == token_master
    then (ok tt, record d { start = master; mode = at_separator })
    else if b == token_dot
    then (read_byte >>= second_byte) d
    else (ok tt, unread_byte b (record d { mode = at_segment }))

unfoldable pub parse_start : Exec Decoder (Unit {0})
unfolding first_byte
parse_start = read_byte >>= first_byte

abbrev pub reset_current_token : Decoder → Decoder
reset_current_token d = record d { current_token = []; current_token_hardened = false }

add_segment : Option ℕ → Exec Decoder (Unit {0})
add_segment none d = (err (path bad_number), d)
add_segment (some i) d =
    if leb hardened_start i
    then (err (path (index_too_large i)), record d { pos = d.pos - (length d.current_token - 1) })
    else (
      ok tt,
      record d {
        segments =
            d.segments ++ ((if d.current_token_hardened then i + hardened_start else i) ∷ []);
      },
    )

to_next_segment : Exec Decoder (Unit {0})
to_next_segment d = (ok tt, reset_current_token (record d { mode = at_segment }))

save_token : Bytes → Exec Decoder (Unit {0})
unfolding add_segment
save_token [] d = (ok tt, d)
save_token (c ∷ rest) d = add_segment (parse_uint32 (c ∷ rest)) d

unfoldable pub save_segment : Exec Decoder (Unit {0})
unfolding save_token to_next_segment
save_segment d = (save_token d.current_token >> to_next_segment) d

separator_byte : ℕ → Exec Decoder (Unit {0})
separator_byte b =
    if b == token_separator then save_segment else raise (path (expected_separator b))

unfoldable pub parse_separator : Exec Decoder (Unit {0})
unfolding separator_byte
parse_separator = read_byte >>= separator_byte

-- The text ends where a segment may stand.
segment_end : Exec Decoder (Unit {0})
segment_end d =
    if length d.current_token == 0
    then (err (path expected_number_at_end), d)
    else (save_segment >> raise (path end_of_text)) d

segment_byte : ℕ → Exec Decoder (Unit {0})
segment_byte b d =
    if ltb 0 (length d.current_token) && b == token_separator
    then save_segment d
    else if ltb 0 (length d.current_token) && b == token_hardened
    then (ok tt, record d { current_token_hardened = true; mode = at_separator })
    else if ltb b 0x30 || ltb 0x39 b
    then (err (path (expected_number b)), d)
    else (ok tt, record d { current_token = d.current_token ++ (b ∷ []) })

segment_read : Result ℕ × Decoder → Result (Unit {0}) × Decoder
unfolding segment_end segment_byte
segment_read (err e, d) = segment_end d
segment_read (ok b, d) = segment_byte b d

unfoldable pub parse_segment : Exec Decoder (Unit {0})
unfolding segment_read
parse_segment d = segment_read (read_byte d)

by_mode : Mode → Exec Decoder (Unit {0})
by_mode at_start = parse_start
by_mode at_separator = parse_separator
by_mode at_segment = parse_segment

-- `d.f()`
unfoldable pub call : Exec Decoder (Unit {0})
unfolding by_mode
call d = by_mode d.mode d

end_parse : Error → Decoder → Result (StartingPoint × List ℕ)
end_parse (path end_of_text) d = ok (d.start, d.segments)
end_parse (path e) d = err (path_at d.pos e)
end_parse e d = err e

next_round :
    (Decoder → Result (StartingPoint × List ℕ))
    → Result (Unit {0}) × Decoder
    → Result (StartingPoint × List ℕ)
unfolding end_parse
next_round more (ok done, d) = more d
next_round more (err e, d) = end_parse e d

-- `for { err := d.f() ... }`: a round reads a byte, or leaves the start, or ends the loop.
unfoldable pub parse : ℕ → Decoder → Result (StartingPoint × List ℕ)
unfolding next_round
parse zero d = err out_of_rounds
parse (suc rounds) d = next_round (parse rounds) (call d)

unfoldable pub decode : Bytes → Result (StartingPoint × List ℕ)
decode text = parse (suc (suc (length text))) (new_decoder text)
