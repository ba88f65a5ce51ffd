-- ===== src/GlobalPlatform/Load/Blocks.antt =====
-- The load commands that a stream makes of its data.
use keycard_go.Base.{
  ℕ, zero, suc, ◌+◌, ◌/◌, ◌%◌, ◌<◌, ◌≤◌, ◌≡◌, refl, inl, inr, true, false, List, [], ◌∷◌, ◌++◌,
  arith, ◌==◌, if◌then◌else◌, length, take, drop, take-append_drop, length-take, length-drop, min,
  ◌⊎◌, dec_lt,
}
use keycard_go.Base.Bytes.{Bytes, uint8}
use keycard_go.Apdu.Command.{Command}
use keycard_go.GlobalPlatform.Load.{
  LoadCommandStream, new_load_command_stream, next, index, get_command, load_loop, block_size,
  p1_load_more_blocks, p1_load_last_block,
}

-- What the commands carry, one after the other.
unfoldable pub carried : List Command → Bytes
carried [] = []
carried (c ∷ commands) = c.payload ++ carried commands

-- The commands are numbered from `i` modulo 256, hold between 1 and 247 bytes each, and the last of
-- them, and no other, is marked as the last.
abbrev pub IsLoad : ℕ → List Command → Type 0
IsLoad i [] = Unit
IsLoad i (c ∷ commands) =
    (c.p2 ≡ i % 256)
    × (0 < length c.payload)
    × (length c.payload ≤ 247)
    × (c.p1 ≡ (if length commands == 0 then p1_load_last_block else p1_load_more_blocks))
    × IsLoad (i + 1) commands

nil_if_empty : (xs : Bytes) → length xs ≡ 0 → [] ≡ xs
nil_if_empty [] h = refl
nil_if_empty (x ∷ xs) h = absurd (omega arith)

pub at_end : (s : LoadCommandStream) → length s.unread ≡ 0 → next s ≡ (false, s)
unfolding next
at_end s h = rw h refl

-- The stream after a block.
pub after : LoadCommandStream → LoadCommandStream
after s =
    let left = drop block_size s.unread in
    record s {
      unread = left;
      current_data = take block_size s.unread;
      current_index = uint8 (s.current_index + 1);
      p1 = if length left == 0 then p1_load_last_block else s.p1;
    }

-- The bytes left after a block.
pub unread-after : (s : LoadCommandStream) → (after s).unread ≡ drop block_size s.unread
unfolding after
unread-after s = refl

pub next_block : (s : LoadCommandStream) → 0 < length s.unread → next s ≡ (true, after s)
unfolding next after
next_block s h = let e : (length s.unread == 0) ≡ false = ground arith in rw e refl

-- The three statements of the theorem, of the commands left.
abbrev pub Sends : ℕ → Bytes → List Command → Type 0
Sends i unread commands =
    (carried commands ≡ unread)
    × IsLoad i commands
    × (length commands ≡ (length unread + 246) / 247)

no_more : (i : ℕ) (s : LoadCommandStream) → length s.unread ≡ 0 → Sends i s.unread []
unfolding carried
no_more i s h = (nil_if_empty s.unread h, tt, rw h refl)

last_one : (left count : ℕ) → count ≡ (left + 246) / 247 → (left == 0) ≡ (count == 0)
last_one left count h = ground arith

flag_lem :
    (left p1 : ℕ)
    → p1 ≡ p1_load_more_blocks
    → ((if left == 0 then p1_load_last_block else p1) ≡ p1_load_more_blocks) ⊎ (left ≡ 0)
flag_lem left p1 h = ground arith

one_more :
    (i : ℕ) (s : LoadCommandStream) (rest : List Command)
    → 0 < length s.unread
    → s.current_index ≡ i % 256
    → s.p1 ≡ p1_load_more_blocks
    → Sends (i + 1) (drop 247 s.unread) rest
    → Sends i s.unread (get_command (after s) ∷ rest)
unfolding carried get_command index after
one_more i s rest h numbered more (data', load, count) =
    let left = length-drop 247 s.unread in
    let size : length (take 247 s.unread) ≡ min 247 (length s.unread) = length-take 247 s.unread in
    let flag : (length (drop 247 s.unread) == 0) ≡ (length rest == 0) =
      last_one (length (drop 247 s.unread)) (length rest) count in
    (
      rw data' (take-append_drop 247 s.unread),
      (
        omega (arith, numbered),
        omega (arith, size),
        omega (arith, size),
        rw (flag, more) refl,
        load,
      ),
      omega (arith, count, left),
    )

pub load_loop-Sends :
    (rounds i : ℕ) (s : LoadCommandStream)
    → length s.unread ≤ rounds
    → s.current_index ≡ i % 256
    → (s.p1 ≡ p1_load_more_blocks) ⊎ (length s.unread ≡ 0)
    → Sends i s.unread (load_loop rounds s)
unfolding load_loop after
load_loop-Sends zero i s enough numbered h = no_more i s (omega arith)
load_loop-Sends (suc rounds) i s enough numbered (inr done) =
    rw (load_loop, at_end s done) (no_more i s done)
load_loop-Sends (suc rounds) i s enough numbered (inl more) = elim (dec_lt 0 (length s.unread)) [
  | no done ↦ rw (load_loop, at_end s (omega arith)) (no_more i s (omega arith))
  | yes some_left ↦
      rw (load_loop, next_block s some_left)
        (one_more i s (load_loop rounds (after s)) some_left numbered more (
          load_loop-Sends rounds (i + 1) (after s) (omega (arith, length-drop 247 s.unread))
            (omega (arith, numbered)) (flag_lem (length (drop 247 s.unread)) s.p1 more)))
]

-- For data of any length, the load commands carry the data whole and in order, each of them between
-- 1 and 247 bytes, are numbered from 0 modulo 256, are as many as BlocksCount says, and the last of
-- them and no other is marked as the last.
load_loop_lem :
    (encoded : Bytes)
    → let stream = new_load_command_stream encoded in
      let commands = load_loop (length encoded) stream in
      (carried commands ≡ encoded) × IsLoad 0 commands × (length commands ≡ stream.blocks_count)
load_loop_lem encoded =
    load_loop-Sends (length encoded) 0 (new_load_command_stream encoded) (omega arith) refl
      (inl refl)
