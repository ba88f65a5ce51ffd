-- ===== src/DerivationPath/Decoder/Steps.antt =====
-- Rounds of the decoder on the bytes that an encoded path consists of.
use keycard_go.Base.{
  ℕ, suc, ◌+◌, ◌<◌, ◌≡◌, refl, ap, ◌∙◌, Bool, true, false, ◌&&◌, ◌||◌, List, [], ◌∷◌, ◌++◌,
  append-nil, append_assoc, arith, ltb, leb, ◌==◌, if◌then◌else◌, length, some, All, ok, err, Error,
  path, end_of_text,
}
use keycard_go.Base.Bytes.{Bytes}
use keycard_go.Base.Decimal.{parse_uint32, IsDigit}
use keycard_go.DerivationPath.Decoder.{
  Decoder, StartingPoint, Mode, at_segment, at_separator, call, parse, read_byte, parse_segment,
  parse_separator, save_segment, segment_read, segment_byte, segment_end, separator_byte, read_from,
  save_token, add_segment, to_next_segment, by_mode, end_parse, next_round,
}

pub go_on :
    (rounds : ℕ) (d d' : Decoder) → call d ≡ (ok tt, d') → parse (suc rounds) d ≡ parse rounds d'
unfolding parse next_round
go_on rounds d d' h = ap (next_round (parse rounds)) h

ends :
    (rounds : ℕ) (d d' : Decoder) (e : Error)
    → call d ≡ (err e, d')
    → parse (suc rounds) d ≡ end_parse e d'
unfolding parse next_round
ends rounds d d' e h = ap (next_round (parse rounds)) h

module _ (start : StartingPoint) where
  abbrev pub machine : Mode → Bytes → ℕ → List ℕ → Bytes → Bool → Decoder
  machine mode unread pos segments token hardened = record {
    unread = unread;
    mode = mode;
    pos = pos;
    segments = segments;
    start = start;
    current_token = token;
    current_token_hardened = hardened;
  }

  -- A decoder in the middle of a segment.
  abbrev pub in_segment : Bytes → ℕ → List ℕ → Bytes → Decoder
  in_segment unread pos segments token = machine at_segment unread pos segments token false

  digit_step :
      (rounds c : ℕ) (rest : Bytes) (pos : ℕ) (segments : List ℕ) (token : Bytes)
      → IsDigit c
      → parse (suc rounds) (in_segment (c ∷ rest) pos segments token)
        ≡ parse rounds (in_segment rest (pos + 1) segments (token ++ (c ∷ [])))
  unfolding call by_mode parse_segment segment_read segment_byte read_byte read_from
  digit_step rounds c rest pos segments token h =
      let no_separator : (ltb 0 (length token) && c == 0x2f) ≡ false = ground arith in
      let no_mark : (ltb 0 (length token) && c == 0x27) ≡ false = ground arith in
      let digit : (ltb c 0x30 || ltb 0x39 c) ≡ false = ground arith in
      go_on rounds (in_segment (c ∷ rest) pos segments token)
        (in_segment rest (pos + 1) segments (token ++ (c ∷ [])))
        (rw (no_separator, no_mark, digit) refl)

  pub digits_steps :
      (rounds : ℕ) (digits rest : Bytes) (pos : ℕ) (segments : List ℕ) (token : Bytes)
      → All IsDigit digits
      → parse (length digits + rounds) (in_segment (digits ++ rest) pos segments token)
        ≡ parse rounds (in_segment rest (pos + length digits) segments (token ++ digits))
  digits_steps rounds [] rest pos segments token h =
      let e : pos + 0 ≡ pos = omega arith in
      let r : 0 + rounds ≡ rounds = omega arith in rw (e, r, append-nil token) refl
  digits_steps rounds (c ∷ digits) rest pos segments token (hc, hs) =
      let r : suc (length digits) + rounds ≡ suc (length digits + rounds) = omega arith in
      let p : pos + 1 + length digits ≡ pos + suc (length digits) = omega arith in
      rw r (
        digit_step (length digits + rounds) c (digits ++ rest) pos segments token hc
        ∙ digits_steps rounds digits rest (pos + 1) segments (token ++ (c ∷ [])) hs
        ∙ rw (p, append_assoc token (c ∷ []) digits) refl)

  abbrev pub saved : List ℕ → Bool → ℕ → List ℕ
  saved segments hardened i = segments ++ ((if hardened then i + 0x80000000 else i) ∷ [])

  -- The token is saved as `i`.
  save_lem :
      (mode : Mode) (unread : Bytes) (pos : ℕ) (segments : List ℕ) (token : Bytes) (hardened : Bool)
      (i : ℕ)
      → parse_uint32 token ≡ some i
      → i < 0x80000000
      → save_segment (machine mode unread pos segments token hardened)
        ≡ (ok tt, in_segment unread pos (saved segments hardened i) [])
  unfolding save_segment save_token add_segment to_next_segment parse_uint32
  save_lem mode unread pos segments [] hardened i h small = absurd cc
  save_lem mode unread pos segments (c ∷ token) hardened i h small =
      let fits : leb 0x80000000 i ≡ false = ground arith in unfold parse_uint32 in rw (h, fits) refl

  -- A separator behind a token without the mark, and behind one with it.
  pub separator_step :
      (rounds : ℕ) (rest : Bytes) (pos : ℕ) (segments : List ℕ) (token : Bytes) (i : ℕ)
      → parse_uint32 token ≡ some i
      → i < 0x80000000
      → 0 < length token
      → parse (suc rounds) (in_segment (0x2f ∷ rest) pos segments token)
        ≡ parse rounds (in_segment rest (pos + 1) (segments ++ (i ∷ [])) [])
  unfolding call by_mode parse_segment segment_read segment_byte read_byte read_from
  separator_step rounds rest pos segments token i h small some_token =
      let there : ltb 0 (length token) ≡ true = ground arith in
      go_on rounds (in_segment (0x2f ∷ rest) pos segments token)
        (in_segment rest (pos + 1) (segments ++ (i ∷ [])) [])
        (rw there (save_lem at_segment rest (pos + 1) segments token false i h small))

  pub mark_step :
      (rounds : ℕ) (rest : Bytes) (pos : ℕ) (segments : List ℕ) (token : Bytes)
      → 0 < length token
      → parse (suc rounds) (in_segment (0x27 ∷ rest) pos segments token)
        ≡ parse rounds (machine at_separator rest (pos + 1) segments token true)
  unfolding call by_mode parse_segment segment_read segment_byte read_byte read_from
  mark_step rounds rest pos segments token some_token =
      let there : ltb 0 (length token) ≡ true = ground arith in
      go_on rounds (in_segment (0x27 ∷ rest) pos segments token)
        (machine at_separator rest (pos + 1) segments token true) (rw there refl)

  pub marked_separator_step :
      (rounds : ℕ) (rest : Bytes) (pos : ℕ) (segments : List ℕ) (token : Bytes) (i : ℕ)
      → parse_uint32 token ≡ some i
      → i < 0x80000000
      → parse (suc rounds) (machine at_separator (0x2f ∷ rest) pos segments token true)
        ≡ parse rounds (in_segment rest (pos + 1) (segments ++ ((i + 0x80000000) ∷ [])) [])
  unfolding call by_mode parse_separator separator_byte read_byte read_from
  marked_separator_step rounds rest pos segments token i h small =
      go_on rounds (machine at_separator (0x2f ∷ rest) pos segments token true)
        (in_segment rest (pos + 1) (segments ++ ((i + 0x80000000) ∷ [])) [])
        (save_lem at_separator rest (pos + 1) segments token true i h small)

  -- The first separator, before any token.
  pub first_separator :
      (rounds : ℕ) (rest : Bytes) (pos : ℕ) (segments : List ℕ)
      → parse (suc rounds) (machine at_separator (0x2f ∷ rest) pos segments [] false)
        ≡ parse rounds (in_segment rest (pos + 1) segments [])
  unfolding call by_mode parse_separator separator_byte read_byte read_from save_segment save_token
      to_next_segment
  first_separator rounds rest pos segments =
      go_on rounds (machine at_separator (0x2f ∷ rest) pos segments [] false)
        (in_segment rest (pos + 1) segments []) refl

  -- The text ends behind a token, and where a separator may stand.
  pub token_end :
      (rounds pos : ℕ) (segments : List ℕ) (token : Bytes) (i : ℕ)
      → parse_uint32 token ≡ some i
      → i < 0x80000000
      → 0 < length token
      → parse (suc rounds) (in_segment [] pos segments token) ≡ ok (start, segments ++ (i ∷ []))
  unfolding call by_mode parse_segment segment_read segment_end read_byte read_from end_parse
  token_end rounds pos segments token i h small some_token =
      let there : (length token == 0) ≡ false = ground arith in
      ends rounds (in_segment [] pos segments token) (in_segment [] pos (segments ++ (i ∷ [])) [])
        (path end_of_text)
        (rw (there, save_lem at_segment [] pos segments token false i h small) refl)

  pub separator_end :
      (rounds pos : ℕ) (segments : List ℕ) (token : Bytes) (hardened : Bool)
      → parse (suc rounds) (machine at_separator [] pos segments token hardened)
        ≡ ok (start, segments)
  unfolding call by_mode parse_separator read_byte read_from end_parse
  separator_end rounds pos segments token hardened =
      ends rounds (machine at_separator [] pos segments token hardened)
        (machine at_separator [] pos segments token hardened) (path end_of_text) refl
