-- ===== src/DerivationPath/Decoder/RoundTrip.antt =====
-- The decoder on what the encoder wrote.
use keycard_go.Base.{
  ℕ, suc, ◌+◌, ◌-◌, ◌<◌, ◌≤◌, ◌≡◌, refl, ap, ◌∙◌, sym, inl, inr, Bool, Bool-cases, true, false,
  List, [], ◌∷◌, ◌++◌, append_assoc, append-nil, arith, leb, if◌then◌else◌, length, length-append,
  All, All-append, ok,
}
use keycard_go.Base.Bytes.{Bytes}
use keycard_go.Base.Decimal.{print, print-All, some_digit, parse_uint32-format_uint}
use keycard_go.DerivationPath.Encoder.{encode, joined, segment_text}
use keycard_go.DerivationPath.Decoder.{
  decode, parse, master, StartingPoint, new_decoder, at_separator, call, by_mode, parse_start,
  first_byte, read_byte, read_from,
}
use keycard_go.DerivationPath.Decoder.Steps.{
  in_segment, machine, digits_steps, separator_step, mark_step, marked_separator_step,
  first_separator, token_end, separator_end, go_on,
}

abbrev pub IsIndex : ℕ → Type 0
IsIndex i = i < 0x100000000

module _ (start : StartingPoint) (i : ℕ) (h : IsIndex i) where
  -- An index up to the separator behind it.
  segment_steps :
      (rounds : ℕ) (rest : Bytes) (pos : ℕ) (segments : List ℕ)
      → (pos' : ℕ) × (parse
            (length (segment_text i) + suc rounds)
            (in_segment start (segment_text i ++ (0x2f ∷ rest)) pos segments [])
          ≡ parse rounds (in_segment start rest pos' (segments ++ (i ∷ [])) []))
  unfolding segment_text
  segment_steps rounds rest pos segments = elim (Bool-cases (leb 0x80000000 i)) [
    | inl hard ↦
        let k = i - 0x80000000 in
        let digits = print 20 k in
        let back : k + 0x80000000 ≡ i = ground (arith, hard) in
        let fuel : length (digits ++ (0x27 ∷ [])) + suc rounds ≡ length digits + suc (suc rounds) =
          omega (arith, length-append digits (0x27 ∷ [])) in
        let token = parse_uint32-format_uint k (omega arith) in
        let pos' = pos + length digits in
        (
          pos' + 1 + 1,
          rw (hard, fuel, append_assoc digits (0x27 ∷ []) (0x2f ∷ rest))
              (digits_steps start (suc (suc rounds)) digits (0x27 ∷ 0x2f ∷ rest) pos segments []
                  (print-All 20 k)
                ∙ mark_step start (suc rounds) (0x2f ∷ rest) pos' segments digits
                    (some_digit 20 k (omega arith))
                ∙ marked_separator_step start rounds rest (pos' + 1) segments digits k token
                    (omega arith)
                ∙ ap
                    (λ (j : ℕ).
                      parse rounds (in_segment start rest (pos' + 1 + 1) (segments ++ (j ∷ [])) []))
                    back),
        )
    | inr soft ↦
        let digits = print 20 i in
        let small : i < 0x80000000 = ground (arith, soft) in
        let pos' = pos + length digits in
        (
          pos' + 1,
          rw soft (
              digits_steps start (suc rounds) digits (0x2f ∷ rest) pos segments [] (print-All 20 i)
              ∙ separator_step start rounds rest pos' segments digits i
                  (parse_uint32-format_uint i (omega arith)) small (some_digit 20 i (omega arith))),
        )
  ]

  -- The last index, of which a hardened one is dropped.
  last_steps :
      (rounds pos : ℕ) (segments : List ℕ)
      → parse
          (length (segment_text i) + suc rounds)
          (in_segment start (segment_text i) pos segments [])
        ≡ ok (start, if leb 0x80000000 i then segments else segments ++ (i ∷ []))
  unfolding segment_text
  last_steps rounds pos segments = elim (Bool-cases (leb 0x80000000 i)) [
    | inl hard ↦
        let k = i - 0x80000000 in
        let digits = print 20 k in
        let fuel : length (digits ++ (0x27 ∷ [])) + suc rounds ≡ length digits + suc (suc rounds) =
          omega (arith, length-append digits (0x27 ∷ [])) in
        rw (hard, fuel)
          (digits_steps start (suc (suc rounds)) digits (0x27 ∷ []) pos segments [] (print-All 20 k)
            ∙ mark_step start (suc rounds) [] (pos + length digits) segments digits
                (some_digit 20 k (omega arith))
            ∙ separator_end start rounds (pos + length digits + 1) segments digits true)
    | inr soft ↦
        let digits = print 20 i in
        let small : i < 0x80000000 = ground (arith, soft) in
        rw soft (
          ap
            (λ (t : Bytes). parse (length digits + suc rounds) (in_segment start t pos segments []))
            (sym (append-nil digits))
          ∙ digits_steps start (suc rounds) digits [] pos segments [] (print-All 20 i)
          ∙ token_end start rounds (pos + length digits) segments digits i
              (parse_uint32-format_uint i (omega arith)) small (some_digit 20 i (omega arith)))
  ]

-- The indexes that are read back from those of a path.
unfoldable pub read_back : List ℕ → List ℕ
read_back [] = []
read_back (i ∷ []) = if leb 0x80000000 i then [] else i ∷ []
read_back (i ∷ j ∷ rest) = i ∷ read_back (j ∷ rest)

if-append :
    (b : Bool) (xs ys : List ℕ) → (if b then xs else xs ++ ys) ≡ xs ++ (if b then [] else ys)
if-append true xs ys = sym (append-nil xs)
if-append false xs ys = refl

path_steps :
    (start : StartingPoint) (i : ℕ) (rest : List ℕ) (rounds pos : ℕ) (segments : List ℕ)
    → All IsIndex (i ∷ rest)
    → parse
        (length (segment_text i ++ joined rest) + suc rounds)
        (in_segment start (segment_text i ++ joined rest) pos segments [])
      ≡ ok (start, segments ++ read_back (i ∷ rest))
unfolding joined read_back
path_steps start i [] rounds pos segments (hi, hs) = rw (append-nil (segment_text i)) (
    last_steps start i hi rounds pos segments
    ∙ ap (λ (p : List ℕ). ok (start, p)) (if-append (leb 0x80000000 i) segments (i ∷ [])))
path_steps start i (j ∷ rest) rounds pos segments (hi, hs) =
    let text = segment_text j ++ joined rest in
    let fuel : length (segment_text i ++ (0x2f ∷ text)) + suc rounds
        ≡ length (segment_text i) + suc (length text + suc rounds) =
      omega (arith, length-append (segment_text i) (0x2f ∷ text)) in
    let (pos', first) = segment_steps start i hi (length text + suc rounds) text pos segments in
    rw fuel (
      first
      ∙ path_steps start j rest rounds pos' (segments ++ (i ∷ [])) hs
      ∙ ap (λ (p : List ℕ). ok (start, p)) (append_assoc segments (i ∷ []) (read_back (j ∷ rest))))

master_step :
    (rounds : ℕ) (rest : Bytes)
    → parse (suc rounds) (new_decoder (0x6d ∷ rest))
      ≡ parse rounds (machine master at_separator rest 1 [] [] false)
unfolding call by_mode parse_start first_byte read_byte read_from
master_step rounds rest =
    go_on rounds (new_decoder (0x6d ∷ rest)) (machine master at_separator rest 1 [] [] false)
      (ap (λ (k : ℕ). (ok tt, machine master at_separator rest k [] [] false)) (omega arith))

-- Decoding the text of a path gives back the master as its start and the indexes, without the last
-- one where that is hardened.
decode-encode-read_back :
    (raw_path : List ℕ)
    → All IsIndex raw_path
    → decode (encode raw_path) ≡ ok (master, read_back raw_path)
unfolding decode encode joined
decode-encode-read_back [] h =
    master_step 2 [] ∙ separator_end master 1 1 [] [] false ∙ unfold read_back in refl
decode-encode-read_back (i ∷ rest) h =
    let text = segment_text i ++ joined rest in
    let fuel : suc (suc (length text)) ≡ length text + suc 1 = omega arith in
    master_step (suc (suc (suc (length text)))) (0x2f ∷ text)
    ∙ first_separator master (suc (suc (length text))) text 1 []
    ∙ rw fuel (path_steps master i rest 1 2 [] h)

if-cons :
    (b : Bool) (i : ℕ) (xs ys : List ℕ)
    → i ∷ (if b then xs else ys) ≡ (if b then i ∷ xs else i ∷ ys)
if-cons true i xs ys = refl
if-cons false i xs ys = refl

read_back-append :
    (front : List ℕ) (last : ℕ)
    → read_back (front ++ (last ∷ []))
      ≡ (if leb 0x80000000 last then front else front ++ (last ∷ []))
unfolding read_back
read_back-append [] last = refl
read_back-append (i ∷ []) last =
    ap (λ (p : List ℕ). i ∷ p) (read_back-append [] last)
    ∙ if-cons (leb 0x80000000 last) i [] (last ∷ [])
read_back-append (i ∷ j ∷ front) last =
    ap (λ (p : List ℕ). i ∷ p) (read_back-append (j ∷ front) last)
    ∙ if-cons (leb 0x80000000 last) i (j ∷ front) (j ∷ (front ++ (last ∷ [])))

module _ (front : List ℕ) (last : ℕ) (h : All IsIndex front) where
  indexes : IsIndex last → All IsIndex (front ++ (last ∷ []))
  indexes small = All-append IsIndex front (last ∷ []) (small, tt) h

  -- Where the last index of a path is not hardened, decoding the text of the path gives back all its
  -- indexes, of 32 bits each, and the master as its start.
  pub decode-encode_path :
      last < 0x80000000 → decode (encode (front ++ (last ∷ []))) ≡ ok (master, front ++ (last ∷ []))
  decode-encode_path small =
      let soft : leb 0x80000000 last ≡ false = ground arith in
      decode-encode-read_back (front ++ (last ∷ [])) (indexes (omega arith))
      ∙ ap (λ (p : List ℕ). ok (master, p)) (read_back-append front last ∙ rw soft refl)

  -- A hardened index at the end of a path of 32-bit indexes is dropped, without an error.
  pub decode_drops_hardened :
      0x80000000 ≤ last → IsIndex last → decode (encode (front ++ (last ∷ []))) ≡ ok (master, front)
  decode_drops_hardened large fits =
      let hard : leb 0x80000000 last ≡ true = ground arith in
      decode-encode-read_back (front ++ (last ∷ [])) (indexes fits)
      ∙ ap (λ (p : List ℕ). ok (master, p)) (read_back-append front last ∙ rw hard refl)
