-- ===== src/Types/Metadata.antt =====
-- types/metadata.go: a card name and a set of wallet numbers. A string is its bytes; a uint64 that the
-- code reaches stays far below 2 ^ 64, so its sums do not wrap.
pub mod Search
pub mod Wallets
pub mod Ranges
pub mod Rounds
pub mod RoundTrip
use keycard_go.Base.{
  ℕ, zero, suc, ◌+◌, ◌/◌, bit_and, bit_or, Bool, true, false, List, [], ◌∷◌, ◌++◌, ltb, leb, ◌==◌,
  ◌&&◌, map, if◌then◌else◌, not, length, get_or, take, drop, Result, ok, err, metadata, empty,
  bad_version, name_truncated, count_too_large, total_too_large, name_too_long, out_of_rounds,
}
use keycard_go.Base.Bytes.{Bytes, uint8, uint32, slice}
use keycard_go.Tlv.Length.{encode_ber_length, decode_ber_length}

abbrev pub max_wallet_range_count : ℕ
max_wallet_range_count = 100000

abbrev pub max_total_wallets : ℕ
max_total_wallets = 100000

pub record Metadata : Type 0 where
  pub name : Bytes
  pub wallets : List ℕ

abbrev pub empty_metadata : Metadata
empty_metadata = record { name = []; wallets = [] }

unfoldable pub set_name : Bytes → Metadata → Result Metadata
set_name name m =
    if ltb 20 (length name) then err (metadata name_too_long) else ok (record m { name = name })

-- The binary search of sortInsertPos and sortSearchPos, which are the same code. A round halves the
-- interval, so the rounds given, as many as there are wallets, are enough.
unfoldable pub search_loop : ℕ → List ℕ → ℕ → ℕ → ℕ → ℕ
search_loop zero wallets id low high = low
search_loop (suc rounds) wallets id low high =
    let mid = (low + high) / 2 in
    let right = search_loop rounds wallets id (mid + 1) high in
    let left = search_loop rounds wallets id low mid in
    if ltb low high then (if ltb (get_or wallets mid 0) id then right else left) else low

unfoldable pub sort_insert_pos : List ℕ → ℕ → ℕ
sort_insert_pos wallets id = search_loop (length wallets) wallets id 0 (length wallets)

-- Go's append, copy and store put `id` at place `idx`.
unfoldable pub add_wallet : ℕ → Metadata → Metadata
add_wallet id m =
    let idx = sort_insert_pos m.wallets id in
    if ltb idx (length m.wallets) && get_or m.wallets idx 0 == id
    then m
    else record m { wallets = take idx m.wallets ++ id ∷ drop idx m.wallets }

unfoldable pub remove_wallet : ℕ → Metadata → Metadata
remove_wallet id m =
    let idx = sort_insert_pos m.wallets id in
    if ltb idx (length m.wallets) && get_or m.wallets idx 0 == id
    then record m { wallets = take idx m.wallets ++ drop (idx + 1) m.wallets }
    else m

-- The method Paths.
unfoldable pub wallet_paths : Metadata → List ℕ
wallet_paths m = map uint32 m.wallets

add_paths : List ℕ → Metadata → Metadata
add_paths [] m = m
add_paths (p ∷ paths) m = add_paths paths (add_wallet p m)

with_paths : List ℕ → Result Metadata → Result Metadata
with_paths paths (ok m) = ok (add_paths paths m)
with_paths paths (err e) = err e

unfoldable pub new_metadata : Bytes → List ℕ → Result Metadata
unfolding with_paths add_paths
new_metadata name paths = with_paths paths (set_name name empty_metadata)

-- The loop of Serialize over the wallets after the first, with the range that it is in.
unfoldable pub ranges_loop : ℕ → ℕ → List ℕ → List (ℕ × ℕ)
ranges_loop start count [] = (start, count) ∷ []
ranges_loop start count (w ∷ wallets) =
    let longer = ranges_loop start (count + 1) wallets in
    let next = (start, count) ∷ ranges_loop w 0 wallets in
    if w == start + count + 1 then longer else next

unfoldable pub encode_ranges : List (ℕ × ℕ) → Bytes
encode_ranges [] = []
encode_ranges ((start, count) ∷ ranges) =
    encode_ber_length (uint32 start) ++ (encode_ber_length (uint32 count) ++ encode_ranges ranges)

unfoldable pub encode_wallets : List ℕ → Bytes
encode_wallets [] = []
encode_wallets (w ∷ wallets) = encode_ranges (ranges_loop w 0 wallets)

unfoldable pub serialize : Metadata → Bytes
serialize m = bit_or 0x20 (uint8 (length m.name)) ∷ (m.name ++ encode_wallets m.wallets)

-- `for i := uint64(0); i <= uint64(count); i++`, by the wallets left to append.
unfoldable pub run : ℕ → ℕ → List ℕ
run start zero = start ∷ []
run start (suc count) = start ∷ run (start + 1) count

with_count : ℕ → Result (ℕ × ℕ) → Result (ℕ × (ℕ × ℕ))
with_count start (ok (count, off)) = ok (start, (count, off))
with_count start (err e) = err e

with_start : Bytes → Result (ℕ × ℕ) → Result (ℕ × (ℕ × ℕ))
with_start input (ok (start, off)) = with_count start (decode_ber_length input off)
with_start input (err e) = err e

-- The start and the count of a range, and the offset behind them.
unfoldable pub read_range : Bytes → ℕ → Result (ℕ × (ℕ × ℕ))
unfolding with_count with_start
read_range input off = with_start input (decode_ber_length input off)

-- `for off < len(input)`; each round reads at least two bytes, so as many rounds as bytes are enough.
unfoldable pub parse_loop : ℕ → Bytes → ℕ → ℕ → List ℕ → Result (List ℕ)
parse_loop zero input off total wallets =
    if ltb off (length input) then err out_of_rounds else ok wallets
parse_loop (suc rounds) input off total wallets = elim (ltb off (length input)) [
  | false ↦ ok wallets
  | true ↦ elim (read_range input off) [
    | err e ↦ err e
    | ok (start, (count, off')) ↦ elim (ltb max_wallet_range_count count) [
      | true ↦ err (metadata count_too_large)
      | false ↦ elim (ltb max_total_wallets (total + (count + 1))) [
        | true ↦ err (metadata total_too_large)
        | false ↦ parse_loop rounds input off' (total + (count + 1)) (wallets ++ run start count)
      ]
    ]
  ]
]

with_wallets : Bytes → Result (List ℕ) → Result Metadata
with_wallets name (ok wallets) = ok (record { name = name; wallets = wallets })
with_wallets name (err e) = err e

unfoldable pub parse_metadata : Bytes → Result Metadata
unfolding with_wallets
parse_metadata [] = err (metadata empty)
parse_metadata (header ∷ body) =
    let input = header ∷ body in
    let version = header / 32 in
    let name_len = bit_and header 0x1f in
    let off = 1 + name_len in
    if not (version == 1)
    then err (metadata bad_version)
    else if ltb (length input) off
    then err (metadata name_truncated)
    else with_wallets (slice 1 name_len input) (parse_loop (length input) input off 0 [])
