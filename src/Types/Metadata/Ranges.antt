-- ===== src/Types/Metadata/Ranges.antt =====
-- The ranges that Serialize makes of a list of wallets, and the loop of ParseMetadata on them.
use keycard_go.Base.{
  ℕ, zero, suc, ◌+◌, ◌<◌, ◌≤◌, ◌≡◌, refl, ap, ◌∙◌, sym, List, [], ◌∷◌, ◌++◌, append_assoc,
  append-nil, arith, inl, inr, true, false, ltb, lt→ltb, ge→ltb, ◌==◌, ==_iff, Bool-cases, length,
  drop, All, length-append, length-drop, drop-append, drop-drop, ok,
}
use keycard_go.Base.Bytes.{Bytes, uint32}
use keycard_go.Tlv.Length.{encode_ber_length}
use keycard_go.Tlv.Length.RoundTrip.{decode-encode}
use keycard_go.Types.Metadata.{
  ranges_loop, encode_ranges, run, parse_loop, read_range, max_total_wallets,
  max_wallet_range_count,
}

-- The wallets of a list of ranges.
unfoldable pub expand : List (ℕ × ℕ) → List ℕ
expand [] = []
expand ((start, count) ∷ ranges) = run start count ++ expand ranges

run_snoc : (start count : ℕ) → run start (suc count) ≡ run start count ++ ((start + count + 1) ∷ [])
unfolding run
run_snoc start zero = ap (λ (k : ℕ). start ∷ k ∷ []) (omega arith)
run_snoc start (suc count) =
    let e : start + 1 + count + 1 ≡ start + suc count + 1 = omega arith in
    ap (λ (ws : List ℕ). start ∷ ws)
      (run_snoc (start + 1) count ∙ ap (λ (k : ℕ). run (start + 1) count ++ (k ∷ [])) e)

-- Compressing a list of wallets into ranges loses nothing, in whatever order they stand.
pub expand-ranges_loop :
    (start count : ℕ) (wallets : List ℕ)
    → expand (ranges_loop start count wallets) ≡ run start count ++ wallets
unfolding expand ranges_loop
expand-ranges_loop start count [] = refl
expand-ranges_loop start count (w ∷ wallets) = elim (Bool-cases (w == start + count + 1)) [
  | inl longer ↦
      let e : w ≡ start + count + 1 = (==_iff w (start + count + 1)).0 longer in
      let c : count + 1 ≡ suc count = omega arith in
      rw (longer, c, expand-ranges_loop start (suc count) wallets, run_snoc start count, e)
        (append_assoc (run start count) ((start + count + 1) ∷ []) wallets)
  | inr next ↦ rw (next, expand-ranges_loop w 0 wallets) (unfold run in refl)
]

-- The starts of the ranges are among the wallets.
pub ranges_loop-All :
    (start count : ℕ) (wallets : List ℕ)
    → start < 0x100000000
    → All (λ w. w < 0x100000000) wallets
    → All (λ (r : ℕ × ℕ). r.0 < 0x100000000) (ranges_loop start count wallets)
unfolding ranges_loop
ranges_loop-All start count [] hs h = (hs, tt)
ranges_loop-All start count (w ∷ wallets) hs (hw, h) = elim (Bool-cases (w == start + count + 1)) [
  | inl longer ↦ rw longer (ranges_loop-All start (count + 1) wallets hs h)
  | inr next ↦ rw next (hs, ranges_loop-All w 0 wallets hw h)
]

pub length-run : (start count : ℕ) → length (run start count) ≡ suc count
unfolding run
length-run start zero = refl
length-run start (suc count) = ap suc (length-run (start + 1) count)

one_byte_at_least : (n : ℕ) → 0 < length (encode_ber_length n)
unfolding encode_ber_length
one_byte_at_least n = ground arith

-- As many rounds as bytes are enough.
pub length-encode_ranges : (ranges : List (ℕ × ℕ)) → length ranges ≤ length (encode_ranges ranges)
unfolding encode_ranges
length-encode_ranges [] = omega arith
length-encode_ranges ((start, count) ∷ ranges) =
    let s = encode_ber_length (uint32 start) in
    let c = encode_ber_length (uint32 count) in
    omega (
      arith,
      one_byte_at_least (uint32 start),
      length-encode_ranges ranges,
      length-append s (c ++ encode_ranges ranges),
      length-append c (encode_ranges ranges),
    )

read_range_lem :
    (input : Bytes) (off start count : ℕ) (rest : Bytes)
    → start < 0x100000000
    → count < 0x100000000
    → drop off input ≡ encode_ber_length start ++ (encode_ber_length count ++ rest)
    → (off' : ℕ) × (read_range input off ≡ ok (start, (count, off'))) × (drop off' input ≡ rest)
unfolding read_range
read_range_lem input off start count rest hs hc h =
    let s = encode_ber_length start in
    let c = encode_ber_length count in
    let seen : drop (off + length s) input ≡ c ++ rest =
      sym (drop-drop (length s) off input) ∙ ap (drop (length s)) h ∙ drop-append s (c ++ rest) in
    let first = decode-encode input off start (c ++ rest) hs h in
    let second = decode-encode input (off + length s) count rest hc seen in
    (
      off + length s + length c,
      rw (first, second) refl,
      sym (drop-drop (length c) (off + length s) input)
          ∙ ap (drop (length c)) seen
          ∙ drop-append c rest,
    )

nothing_left : (input : Bytes) (off : ℕ) → drop off input ≡ [] → ltb off (length input) ≡ false
nothing_left input off h =
    ge→ltb off (length input) (omega (arith, length-drop off input, ap length h))

-- The loop on what was written for some ranges appends their wallets.
pub parse_loop_lem :
    (rounds : ℕ) (input : Bytes) (off total : ℕ) (wallets : List ℕ) (ranges : List (ℕ × ℕ))
    → drop off input ≡ encode_ranges ranges
    → All (λ (r : ℕ × ℕ). r.0 < 0x100000000) ranges
    → length ranges ≤ rounds
    → total + length (expand ranges) ≤ max_total_wallets
    → parse_loop rounds input off total wallets ≡ ok (wallets ++ expand ranges)
unfolding parse_loop encode_ranges expand
parse_loop_lem zero input off total wallets [] h hr enough few =
    rw (parse_loop, nothing_left input off h) (ap ok (sym (append-nil wallets)))
parse_loop_lem (suc rounds) input off total wallets [] h hr enough few =
    rw (parse_loop, nothing_left input off h) (ap ok (sym (append-nil wallets)))
parse_loop_lem zero input off total wallets (r ∷ ranges) h hr enough few = absurd (omega arith)
parse_loop_lem (suc rounds) input off total wallets ((start, count) ∷ ranges) h (hs, hr) enough
      few =
    let size : length (run start count ++ expand ranges) ≡ suc count + length (expand ranges) =
      length-append (run start count) (expand ranges)
      ∙ ap (λ (k : ℕ). k + length (expand ranges)) (length-run start count) in
    let es : uint32 start ≡ start = omega (arith, hs) in
    let ec : uint32 count ≡ count = omega (arith, few, size) in
    let seen = rw (es, ec) at h in
    let (off', read, rest) =
      read_range_lem input off start count (encode_ranges ranges) hs (omega (arith, few, size))
        seen in
    let more : ltb off (length input) ≡ true = lt→ltb off (length input) (
      omega (
        arith,
        length-drop off input,
        ap length seen,
        one_byte_at_least start,
        length-append (encode_ber_length start) (encode_ber_length count ++ encode_ranges ranges),
      )) in
    let small : ltb max_wallet_range_count count ≡ false =
      ge→ltb max_wallet_range_count count (omega (arith, few, size)) in
    let fits : ltb max_total_wallets (total + (count + 1)) ≡ false =
      ge→ltb max_total_wallets (total + (count + 1)) (omega (arith, few, size)) in
    let then =
      parse_loop_lem rounds input off' (total + (count + 1)) (wallets ++ run start count) ranges
        rest hr (omega arith) (omega (arith, few, size)) in
    rw (parse_loop, more, read, small, fits)
      (then ∙ ap ok (append_assoc wallets (run start count) (expand ranges)))
