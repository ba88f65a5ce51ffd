-- ===== src/Types/Metadata/RoundTrip.antt =====
-- Metadata that Serialize wrote and ParseMetadata reads.
use keycard_go.Base.{
  ℕ, ◌+◌, ◌<◌, ◌≤◌, ◌%◌, ◌/◌, ◌≡◌, refl, ap, ◌∙◌, List, [], ◌∷◌, ◌++◌, arith, length, drop, All,
  length-append, take-append, drop-append, ok, bit_and, bit_or, ◌==◌, ltb, false, true, suc, ge→ltb,
}
use keycard_go.Base.Bits.{bit_and_halves, bit_and-zero, bit_or_shifted}
use keycard_go.Base.Bytes.{Bytes, uint8}
use keycard_go.Types.Metadata.{
  Metadata, serialize, encode_ranges, parse_metadata, encode_wallets, parse_loop, ranges_loop, run,
  max_total_wallets,
}
use keycard_go.Types.Metadata.Ranges.{
  expand, expand-ranges_loop, ranges_loop-All, length-encode_ranges, parse_loop_lem,
}

low_five_bits : (x : ℕ) → bit_and x 31 ≡ x % 32
low_five_bits x =
    let half = x / 2 in
    let fourth = half / 2 in
    let eighth = fourth / 2 in
    let sixteenth = eighth / 2 in
    omega (
      arith,
      bit_and_halves x 31,
      bit_and_halves half 15,
      bit_and_halves fourth 7,
      bit_and_halves eighth 3,
      bit_and_halves sixteenth 1,
      bit_and-zero (sixteenth / 2),
    )

-- The loop on the wallets of `m`, which stand at the end of the input.
wallets_lem :
    (input : Bytes) (off : ℕ) (wallets : List ℕ)
    → drop off input ≡ encode_wallets wallets
    → length (encode_wallets wallets) ≤ length input
    → All (λ w. w < 0x100000000) wallets
    → length wallets ≤ max_total_wallets
    → parse_loop (length input) input off 0 [] ≡ ok wallets
unfolding encode_wallets
wallets_lem input off [] h room hw few =
    parse_loop_lem (length input) input off 0 [] [] (unfold encode_ranges in h) tt (omega arith)
      (unfold expand in omega arith)
    ∙ unfold expand in refl
wallets_lem input off (w ∷ wallets) h room (h0, hw) few =
    let ranges = ranges_loop w 0 wallets in
    let all : expand ranges ≡ w ∷ wallets = unfold run in expand-ranges_loop w 0 wallets in
    parse_loop_lem (length input) input off 0 [] ranges h (ranges_loop-All w 0 wallets h0 hw)
      (omega (arith, length-encode_ranges ranges)) (rw all (omega (arith, few)))
    ∙ ap ok all

-- Parsing gives back the metadata that was serialized, its wallets in the same order, for a name of
-- at most 31 bytes and at most 100000 wallets that fit 32 bits each.
pub parse_metadata-serialize :
    (m : Metadata)
    → length m.name ≤ 31
    → All (λ w. w < 0x100000000) m.wallets
    → length m.wallets ≤ max_total_wallets
    → parse_metadata (serialize m) ≡ ok m
unfolding parse_metadata serialize
parse_metadata-serialize m short hw few =
    let n = length m.name in
    let tail = encode_wallets m.wallets in
    let input = (32 + n) ∷ (m.name ++ tail) in
    let e8 : uint8 n ≡ n = omega arith in
    let header : bit_or 32 n ≡ 32 + n = bit_or_shifted 5 1 n (omega arith) in
    let version : ((32 + n) / 32 == 1) ≡ true = ground arith in
    let name_len : bit_and (32 + n) 31 ≡ n = low_five_bits (32 + n) ∙ omega arith in
    let size = length-append m.name tail in
    let off : 1 + n ≡ suc n = omega arith in
    let room : ltb (length input) (suc n) ≡ false =
      ge→ltb (length input) (suc n) (omega (arith, size)) in
    let all =
      wallets_lem input (suc n) m.wallets (drop-append m.name tail) (omega (arith, size)) hw few in
    rw (e8, header, version, name_len, off, room, all, take-append m.name tail) refl
