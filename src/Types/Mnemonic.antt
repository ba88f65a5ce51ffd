-- ===== src/Types/Mnemonic.antt =====
-- types/mnemonic.go. The list of the 2048 English words is an argument, as are strings.Fields and
-- SHA-256; the seeds are PBKDF2 of the phrase.
pub mod Bits
pub mod Checksum
use keycard_go.Base.{
  ℕ, zero, suc, ◌+◌, ◌-◌, ◌*◌, ◌/◌, ◌%◌, ◌^◌, Bool, true, false, not, ◌||◌, ◌&&◌, List, [], ◌∷◌,
  ◌++◌, ltb, ◌==◌, if◌then◌else◌, length, get_or, take, drop, replicate, bit_or, Option, none, some,
  Result, ok, err, mnemonic, empty_mnemonic, bad_word_count, bad_word, bad_word_index,
  checksum_mismatch,
}
use keycard_go.Base.Bytes.{Bytes, bytes_equal}

pub record Mnemonic : Type 0 where
  pub indexes : List ℕ
  pub words : Option (List Bytes)
  pub wordlist : Option (List Bytes)

-- Two bytes to an index, big end first; a last single byte is dropped.
card_indexes : Bytes → List ℕ
card_indexes (a ∷ b ∷ rest) = bit_or (a * 256) b ∷ card_indexes rest
card_indexes _ = []

all_small : List ℕ → Bool
all_small [] = true
all_small (i ∷ rest) = ltb i 2048 && all_small rest

-- The word at an index, or the empty one.
word_at : List Bytes → ℕ → Bytes
word_at list i = get_or list i []

words_at : List Bytes → List ℕ → List Bytes
unfolding word_at
words_at list [] = []
words_at list (i ∷ rest) = word_at list i ∷ words_at list rest

words_of : Option (List Bytes) → Option (List Bytes) → Mnemonic → List Bytes × Mnemonic
unfolding words_at
words_of (some words) list m = (words, m)
words_of none none m = ([], m)
words_of none (some list) m =
    let found = words_at list m.indexes in (found, record m { words = some found })

-- The method Words, which keeps what it found.
unfoldable pub get_words : Mnemonic → List Bytes × Mnemonic
unfolding words_of
get_words m = words_of m.words m.wordlist m

phrase_of : List Bytes → Bytes
phrase_of [] = []
phrase_of (w ∷ []) = w
phrase_of (w ∷ v ∷ rest) = w ++ (0x20 ∷ phrase_of (v ∷ rest))

unfoldable pub to_phrase : Mnemonic → Bytes × Mnemonic
unfolding phrase_of
to_phrase m = let (words, m') = get_words m in (phrase_of words, m')

-- The set of words is a map: of two equal words the later one counts.
word_index : ℕ → Bytes → List Bytes → Option ℕ
word_index i w [] = none
word_index i w (x ∷ xs) = elim (word_index (i + 1) w xs) [
  | some j ↦ some j
  | none ↦ if bytes_equal x w then some i else none
]

more_indices : Option ℕ → Result (List ℕ) → Result (List ℕ)
more_indices none rest = err (mnemonic bad_word)
more_indices (some i) (ok rest) = ok (i ∷ rest)
more_indices (some i) (err e) = err e

indices_of : List Bytes → List Bytes → Result (List ℕ)
unfolding word_index more_indices
indices_of list [] = ok []
indices_of list (w ∷ rest) = more_indices (word_index 0 w list) (indices_of list rest)

set_bit : ℕ → ℕ → Bytes → Bytes
set_bit byte_idx mask [] = []
set_bit zero mask (b ∷ rest) = bit_or b mask ∷ rest
set_bit (suc i) mask (b ∷ rest) = b ∷ set_bit i mask rest

-- `for bit := 10; bit >= 0; bit--`, by the bits left.
bit_loop : ℕ → ℕ → ℕ → Bytes → Bytes
unfolding set_bit
bit_loop zero i idx bits = bits
bit_loop (suc bit) i idx bits =
    let pos = i * 11 + (10 - bit) in
    bit_loop bit i idx
      (if idx / 2 ^ bit % 2 == 1 then set_bit (pos / 8) (2 ^ (7 - pos % 8)) bits else bits)

pub index_loop : ℕ → List ℕ → Bytes → Bytes
unfolding bit_loop
index_loop i [] bits = bits
index_loop i (idx ∷ rest) bits = index_loop (i + 1) rest (bit_loop 11 i idx bits)

-- The bit at a position of a byte slice, from the highest bit of the first byte on.
pub bit_at : Bytes → ℕ → ℕ
bit_at bytes i = get_or bytes (i / 8) 0 / 2 ^ (7 - i % 8) % 2

-- `for i := 0; i < checksumLenBits; i++`, by the bits left; `actual` starts at the checksum.
checksum_loop : ℕ → ℕ → Bytes → Bytes → Bool
unfolding bit_at
checksum_loop zero i expected actual = true
checksum_loop (suc left) i expected actual =
    let rest = checksum_loop left (i + 1) expected actual in
    if not (bit_at expected i == bit_at actual i) then false else rest

module _ (sha256 : Bytes → Bytes) where
  unfoldable pub validate_checksum : List ℕ → ℕ → Bool
  unfolding index_loop checksum_loop
  validate_checksum indices word_count =
      let checksum_len_bits = word_count / 3 in
      let entropy_len_bytes = (word_count * 11 - checksum_len_bits) / 8 in
      let bits = index_loop 0 indices (replicate ((word_count * 11 + 7) / 8) 0) in
      checksum_loop checksum_len_bits 0 (sha256 (take entropy_len_bytes bits))
        (drop entropy_len_bytes bits)

  valid_length : ℕ → Bool
  valid_length n = n == 12 || (n == 15 || (n == 18 || (n == 21 || n == 24)))

  checked : ℕ → Result (List ℕ) → Result (Unit {0})
  checked count (err e) = err e
  checked count (ok indices) =
      if not (validate_checksum indices count) then err (mnemonic checksum_mismatch) else ok tt

  list_or_nil : Option (List Bytes) → List Bytes
  list_or_nil none = []
  list_or_nil (some list) = list

  unfoldable pub validate : Mnemonic → Result (Unit {0}) × Mnemonic
  unfolding indices_of valid_length checked list_or_nil
  validate m =
      let (words, m') = get_words m in
      let result =
        if length words == 0
        then err (mnemonic empty_mnemonic)
        else if not (valid_length (length words))
        then err (mnemonic bad_word_count)
        else checked (length words) (indices_of (list_or_nil m.wordlist) words) in
      (result, m')

  module _ (english : List Bytes) (fields : Bytes → List Bytes) where
    unfoldable pub mnemonic_from_card_response : Bytes → Mnemonic
    unfolding card_indexes
    mnemonic_from_card_response input = record {
      indexes = card_indexes input;
      words = none;
      wordlist = some english;
    }

    -- Of indices that are not negative.
    unfoldable pub mnemonic_from_indices : List ℕ → Result Mnemonic
    unfolding all_small
    mnemonic_from_indices indices =
        if all_small indices
        then ok (record { indexes = indices; words = none; wordlist = some english })
        else err (mnemonic bad_word_index)

    with_words : List Bytes → Result (List ℕ) → Result Mnemonic
    with_words words (ok indexes) =
        ok (record { indexes = indexes; words = some words; wordlist = some english })
    with_words words (err e) = err e

    unfoldable pub mnemonic_from_phrase : Bytes → Result Mnemonic
    unfolding with_words indices_of
    mnemonic_from_phrase phrase =
        let words = fields phrase in
        if length words == 0
        then err (mnemonic empty_mnemonic)
        else with_words words (indices_of english words)

    validated : Result Mnemonic → Result (Unit {0})
    validated (ok m) = (validate m).0
    validated (err e) = err e

    unfoldable pub validate_mnemonic : Bytes → Result (Unit {0})
    unfolding validated
    validate_mnemonic phrase = validated (mnemonic_from_phrase phrase)
