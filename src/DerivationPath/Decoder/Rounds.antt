-- ===== src/DerivationPath/Decoder/Rounds.antt =====
-- The decoder on any text: its loop ends, and the indexes it returns fit 32 bits.
use keycard_go.Base.{
  ℕ, zero, suc, ◌+◌, ◌<◌, ◌≤◌, ◌≡◌, ◌≢◌, refl, ap, inl, inr, Bool, Bool-cases, true, false, List,
  [], ◌∷◌, arith, ltb, leb, ◌==◌, ◌&&◌, ◌||◌, if◌then◌else◌, length, All, All-append, Option, some,
  none, Result, ok, err, Error, path, end_of_text, out_of_rounds,
}
use keycard_go.Base.Bytes.{Bytes}
use keycard_go.Base.Exec.{continue, ◌>>=◌}
use keycard_go.Base.Decimal.{parse_uint32}
use keycard_go.DerivationPath.Decoder.{
  decode, parse, StartingPoint, Decoder, new_decoder, Mode, at_start, at_separator, at_segment,
  call, by_mode, parse_start, parse_separator, parse_segment, first_byte, second_byte, read_byte,
  read_from, save_segment, save_token, add_segment, to_next_segment, separator_byte, segment_read,
  segment_byte, segment_end, end_parse, next_round,
}
use keycard_go.DerivationPath.Decoder.RoundTrip.{IsIndex}

-- The rounds that a decoder may still need.
abbrev allowance : Mode → ℕ
allowance at_start = 2
allowance _ = 1

some_allowance : (mode : Mode) → 0 < allowance mode
some_allowance at_start = omega arith
some_allowance _ = omega arith

abbrev weight : Decoder → ℕ
weight d = length d.unread + allowance d.mode

-- After a call of a decoder with the weight `w`.
abbrev Moves : ℕ → Result (Unit {0}) × Decoder → Type 0
Moves w (ok done, d) = (weight d < w) × All IsIndex d.segments
Moves w (err e, d) = (e ≢ out_of_rounds) × All IsIndex d.segments

-- After a call that reads nothing, of a decoder with `n` bytes left.
abbrev Keeps : ℕ → Result (Unit {0}) × Decoder → Type 0
Keeps n (ok done, d) = (length d.unread ≡ n) × All IsIndex d.segments
Keeps n (err e, d) = (e ≢ out_of_rounds) × All IsIndex d.segments

add_segment_lem :
    (i : Option ℕ) (d : Decoder)
    → All IsIndex d.segments
    → Keeps (length d.unread) (add_segment i d)
unfolding add_segment
add_segment_lem none d h = ((λ e. cc), h)
add_segment_lem (some i) d h = elim (Bool-cases (leb 0x80000000 i)) [
  | inl large ↦ rw large ((λ e. cc), h)
  | inr small ↦
      let fits : IsIndex (if d.current_token_hardened then i + 0x80000000 else i) =
        ground (arith, small) in
      rw small (
        refl,
        All-append IsIndex d.segments
            ((if d.current_token_hardened then i + 0x80000000 else i) ∷ []) (fits, tt) h,
      )
]

save_token_lem :
    (token : Bytes) (d : Decoder)
    → All IsIndex d.segments
    → Keeps (length d.unread) (save_token token d)
unfolding save_token
save_token_lem [] d h = (refl, h)
save_token_lem (c ∷ rest) d h = add_segment_lem (parse_uint32 (c ∷ rest)) d h

-- What is left of the work when a segment is saved and the loop goes on.
saved_lem :
    (n : ℕ) (r : Result (Unit {0}) × Decoder)
    → Keeps n r
    → Moves (n + 2) (continue r.0 (λ ignored. to_next_segment) r.1)
unfolding to_next_segment
saved_lem n (ok done, d) (len, h) = (omega arith, h)
saved_lem n (err e, d) h = h

save_segment_lem :
    (d : Decoder) → All IsIndex d.segments → Moves (length d.unread + 2) (save_segment d)
unfolding save_segment
save_segment_lem d h =
    saved_lem (length d.unread) (save_token d.current_token d) (save_token_lem d.current_token d h)

-- The same with an error at the end of it.
ended_lem :
    (w : ℕ) (r : Result (Unit {0}) × Decoder) (e : Error)
    → e ≢ out_of_rounds
    → Moves w r
    → Moves 0 (continue r.0 (λ ignored d. (err e, d)) r.1)
ended_lem w (ok done, d) e never (lt, h) = (never, h)
ended_lem w (err f, d) e never h = h

if-Moves :
    (b : Bool) (w : ℕ) (x y : Result (Unit {0}) × Decoder)
    → Moves w x
    → Moves w y
    → Moves w (if b then x else y)
if-Moves true w x y hx hy = hx
if-Moves false w x y hx hy = hy

more_Moves : (v w : ℕ) (r : Result (Unit {0}) × Decoder) → v ≤ w → Moves v r → Moves w r
more_Moves v w (ok done, d) le (lt, h) = (omega arith, h)
more_Moves v w (err e, d) le h = h

separator_lem :
    (text : Bytes) (d : Decoder)
    → All IsIndex d.segments
    → Moves (length text + 1) ((read_from text >>= separator_byte) d)
unfolding read_from separator_byte
separator_lem [] d h = ((λ e. cc), h)
separator_lem (b ∷ rest) d h =
    let d' = record d { unread = rest; pos = d.pos + 1 } in
    elim (Bool-cases (b == 0x2f)) [
      | inl here ↦ rw here (
          more_Moves (length rest + 2) (suc (length rest) + 1) (save_segment d') (omega arith)
            (save_segment_lem d' h))
      | inr other ↦ rw other ((λ e. cc), h)
    ]

segment_lem :
    (text : Bytes) (d : Decoder)
    → d.mode ≡ at_segment
    → All IsIndex d.segments
    → Moves (length text + 1) (segment_read (read_from text d))
unfolding read_from segment_read segment_end segment_byte
segment_lem [] d m h =
    if-Moves (length d.current_token == 0) 1 _ _ ((λ e. cc), h)
      (more_Moves 0 1 _ (omega arith) (
        ended_lem (length d.unread + 2) (save_segment d) (path end_of_text) (λ e. cc)
          (save_segment_lem d h)))
segment_lem (b ∷ rest) d m h =
    let w = suc (length rest) + 1 in
    let d' = record d { unread = rest; pos = d.pos + 1 } in
    let token = d.current_token in
    if-Moves (ltb 0 (length token) && b == 0x2f) w _ _
      (more_Moves (length rest + 2) w (save_segment d') (omega arith) (save_segment_lem d' h))
      (if-Moves (ltb 0 (length token) && b == 0x27) w _ _ (omega arith, h)
        (if-Moves (ltb b 0x30 || ltb 0x39 b) w _ _ ((λ e. cc), h)
          (omega (arith, ap allowance m), h)))

start_lem :
    (text : Bytes) (d : Decoder)
    → All IsIndex d.segments
    → Moves (length text + 2) ((read_from text >>= first_byte) d)
unfolding read_from first_byte second_byte read_byte
start_lem [] d h = ((λ e. cc), h)
start_lem (b ∷ []) d h =
    if-Moves (b == 0x6d) 3 _ _ (omega arith, h)
      (if-Moves (b == 0x2e) 3 _ _ ((λ e. cc), h) (omega arith, h))
start_lem (b ∷ b2 ∷ rest) d h =
    let w = suc (suc (length rest)) + 2 in
    if-Moves (b == 0x6d) w _ _ (omega arith, h)
      (if-Moves (b == 0x2e) w _ _ (if-Moves (b2 == 0x2e) w _ _ (omega arith, h) (omega arith, h))
        (omega arith, h))

by_mode_lem :
    (mode : Mode) (d : Decoder)
    → d.mode ≡ mode
    → All IsIndex d.segments
    → Moves (length d.unread + allowance mode) (by_mode mode d)
unfolding by_mode parse_start parse_separator parse_segment read_byte
by_mode_lem at_start d m h = start_lem d.unread d h
by_mode_lem at_separator d m h = separator_lem d.unread d h
by_mode_lem at_segment d m h = segment_lem d.unread d m h

-- What the loop may return.
abbrev pub IsDecoded : Result (StartingPoint × List ℕ) → Type 0
IsDecoded (ok (start, indexes)) = All IsIndex indexes
IsDecoded (err e) = e ≢ out_of_rounds

end_parse_lem :
    (e : Error) (d : Decoder)
    → e ≢ out_of_rounds
    → All IsIndex d.segments
    → IsDecoded (end_parse e d)
unfolding end_parse
end_parse_lem (path end_of_text) d never h = h
end_parse_lem (path _) d never h = λ f. cc
end_parse_lem _ d never h = never

next_lem :
    (rounds w : ℕ) (r : Result (Unit {0}) × Decoder)
    → w ≤ suc rounds
    → Moves w r
    → ((d : Decoder) → weight d ≤ rounds → All IsIndex d.segments → IsDecoded (parse rounds d))
    → IsDecoded (next_round (parse rounds) r)
unfolding next_round
next_lem rounds w (ok done, d) le (lt, h) ih = ih d (omega arith) h
next_lem rounds w (err e, d) le (never, h) ih = end_parse_lem e d never h

parse-IsDecoded :
    (rounds : ℕ) (d : Decoder)
    → weight d ≤ rounds
    → All IsIndex d.segments
    → IsDecoded (parse rounds d)
unfolding parse
parse-IsDecoded zero d le h = absurd (omega (arith, some_allowance d.mode))
parse-IsDecoded (suc rounds) d le h =
    next_lem rounds (weight d) (call d) le (unfold call in by_mode_lem d.mode d refl h)
      (parse-IsDecoded rounds)

-- Decode ends on any text, since its rounds are always enough, and the indexes that it returns fit
-- 32 bits.
pub decode-IsDecoded : (text : Bytes) → IsDecoded (decode text)
unfolding decode
decode-IsDecoded text =
    parse-IsDecoded (suc (suc (length text))) (new_decoder text) (omega arith) tt
