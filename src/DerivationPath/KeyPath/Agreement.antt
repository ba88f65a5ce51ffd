-- ===== src/DerivationPath/KeyPath/Agreement.antt =====
-- KeyPathFromString on the text of an encoded path.
use keycard_go.Base.{
  ℕ, suc, ◌+◌, ◌-◌, ◌<◌, ◌≤◌, ◌≡◌, ◌≢◌, refl, ap, ◌∙◌, inl, inr, Bool, Bool-cases, true, false,
  ◌||◌, List, [], ◌∷◌, ◌++◌, map, arith, ltb, leb, ◌==◌, ge→ltb, if◌then◌else◌, length,
  length-append, All, All-append, bit_or, some, ok,
}
use keycard_go.Base.Bits.{bit_or_above}
use keycard_go.Base.Bytes.{Bytes, bytes_equal}
use keycard_go.Base.Decimal.{
  parse_uint32, print, print-All, some_digit, IsDigit, parse_uint32-format_uint,
}
use keycard_go.Apdu.Command.{new_command}
use keycard_go.Commands.Paths.{
  segment_bytes, new_command_derive_key, derivation_p1_from_starting_point,
}
use keycard_go.DerivationPath.Decoder.RoundTrip.{decode-encode_path}
use keycard_go.DerivationPath.Encoder.{encode, joined, segment_text}
use keycard_go.DerivationPath.KeyPath.{
  KeyPath, split, prepend, strip_mark, component_number, unsigned_component, parse_path_component,
  more_bytes, component_bytes, path_bytes, with_source, from_components, from_parts,
  key_path_from_string, source_master,
}

abbrev NoSeparator : Bytes → Type 0
NoSeparator = All (λ c. c ≢ 0x2f)

split_part :
    (part rest : Bytes) (parts : List Bytes)
    → NoSeparator part
    → split rest ≡ [] ∷ parts
    → split (part ++ rest) ≡ part ∷ parts
unfolding split prepend
split_part [] rest parts h e = e
split_part (c ∷ part) rest parts (hc, hs) e =
    let other : (c == 0x2f) ≡ false = ground arith in
    rw (split, other, split_part part rest parts hs e, prepend) refl

digits-NoSeparator : (bytes : Bytes) → All IsDigit bytes → NoSeparator bytes
digits-NoSeparator [] h = tt
digits-NoSeparator (c ∷ bytes) (hc, hs) = ((λ e. omega arith), digits-NoSeparator bytes hs)

segment_text-NoSeparator : (i : ℕ) → NoSeparator (segment_text i)
unfolding segment_text
segment_text-NoSeparator i = elim (Bool-cases (leb 0x80000000 i)) [
  | inl hard ↦ rw hard (
      All-append (λ c. c ≢ 0x2f) (print 20 (i - 0x80000000)) (0x27 ∷ []) ((λ e. omega arith), tt)
        (digits-NoSeparator (print 20 (i - 0x80000000)) (print-All 20 (i - 0x80000000))))
  | inr soft ↦ rw soft (digits-NoSeparator (print 20 i) (print-All 20 i))
]

split-joined : (raw_path : List ℕ) → split (joined raw_path) ≡ [] ∷ map segment_text raw_path
unfolding split joined
split-joined [] = refl
split-joined (i ∷ rest) =
    rw
      (split_part (segment_text i) (joined rest) (map segment_text rest)
        (segment_text-NoSeparator i) (split-joined rest))
      refl

-- A digit is no mark.
strip_mark-digits : (bytes : Bytes) → All IsDigit bytes → strip_mark bytes ≡ (false, bytes)
unfolding strip_mark
strip_mark-digits [] h = refl
strip_mark-digits (c ∷ []) (hc, hs) =
    let other : (c == 0x27) ≡ false = ground arith in rw other refl
strip_mark-digits (c ∷ d ∷ rest) (hc, hs) = rw (strip_mark-digits (d ∷ rest) hs) refl

strip_mark-marked : (bytes : Bytes) → strip_mark (bytes ++ (0x27 ∷ [])) ≡ (true, bytes)
unfolding strip_mark
strip_mark-marked [] = refl
strip_mark-marked (c ∷ []) = refl
strip_mark-marked (c ∷ d ∷ rest) = rw (strip_mark-marked (d ∷ rest)) refl

unsigned_lem :
    (hardened : Bool) (bytes : Bytes) (i : ℕ)
    → 0 < length bytes
    → All IsDigit bytes
    → parse_uint32 bytes ≡ some i
    → i < 0x80000000
    → unsigned_component hardened bytes ≡ ok (if hardened then bit_or i 0x80000000 else i)
unfolding unsigned_component component_number
unsigned_lem hardened [] i some_byte h read small = absurd (omega (arith, some_byte))
unsigned_lem hardened (c ∷ rest) i some_byte (hc, hs) read small =
    let no_sign : (c == 0x2b || c == 0x2d) ≡ false = ground arith in
    let fits : ltb 0x7fffffff i ≡ false = ground arith in rw (no_sign, read, fits) refl

component-segment_text : (i : ℕ) → i < 0x100000000 → parse_path_component (segment_text i) ≡ ok i
unfolding parse_path_component segment_text
component-segment_text i h = elim (Bool-cases (leb 0x80000000 i)) [
  | inl hard ↦
      let k = i - 0x80000000 in
      let small : k < 0x80000000 = omega arith in
      let marked : bit_or k 0x80000000 ≡ k + 0x80000000 = bit_or_above 31 1 k small in
      let back : k + 0x80000000 ≡ i = ground (arith, hard) in
      rw (hard, strip_mark-marked (print 20 k))
        (unsigned_lem true (print 20 k) k (some_digit 20 k (omega arith)) (print-All 20 k)
            (parse_uint32-format_uint k (omega arith)) small
          ∙ ap (λ (n : ℕ). ok n) (marked ∙ back))
  | inr soft ↦
      let small : i < 0x80000000 = ground (arith, soft) in
      rw (soft, strip_mark-digits (print 20 i) (print-All 20 i))
        (unsigned_lem false (print 20 i) i (some_digit 20 i (omega arith)) (print-All 20 i)
          (parse_uint32-format_uint i (omega arith)) small)
]

path_bytes-map :
    (raw_path : List ℕ)
    → All (λ i. i < 0x100000000) raw_path
    → path_bytes (map segment_text raw_path) ≡ ok (segment_bytes raw_path)
unfolding path_bytes component_bytes more_bytes segment_bytes
path_bytes-map [] h = refl
path_bytes-map (i ∷ rest) (hi, hs) = rw (component-segment_text i hi, path_bytes-map rest hs) refl

length-texts : (raw_path : List ℕ) → length (map segment_text raw_path) ≡ length raw_path
length-texts [] = refl
length-texts (i ∷ rest) = ap suc (length-texts rest)

module _ (trim_space : Bytes → Bytes) where
  -- A path of at most ten 32-bit indexes, the last one hardened or not, is read from its text with
  -- the master as its source and all its indexes, where TrimSpace leaves the letter m alone.
  pub key_path_from_string-encode :
      (raw_path : List ℕ)
      → trim_space (0x6d ∷ []) ≡ 0x6d ∷ []
      → All (λ i. i < 0x100000000) raw_path
      → length raw_path ≤ 10
      → key_path_from_string trim_space (encode raw_path)
        ≡ ok (record { source = source_master; raw = segment_bytes raw_path })
  unfolding key_path_from_string encode from_parts from_components with_source bytes_equal
  key_path_from_string-encode raw_path trimmed h few =
      let parts =
        split_part (0x6d ∷ []) (joined raw_path) (map segment_text raw_path)
          ((λ e. omega arith), tt) (split-joined raw_path) in
      let fits : ltb 10 (length (map segment_text raw_path)) ≡ false =
        ge→ltb 10 _ (omega (arith, length-texts raw_path)) in
      rw (parts, trimmed, fits, path_bytes-map raw_path h) refl

  -- Where the last of at most ten 32-bit indexes is not hardened, DeriveKey's two ways of sending the
  -- text of a path agree: the command that NewCommandDeriveKey builds has the source and the bytes
  -- that KeyPathFromString gives.
  pub derive_key_agrees :
      (front : List ℕ) (last : ℕ)
      → trim_space (0x6d ∷ []) ≡ 0x6d ∷ []
      → All (λ i. i < 0x100000000) front
      → last < 0x80000000
      → length front ≤ 9
      → let text = encode (front ++ (last ∷ [])) in
        (kp : KeyPath) × (key_path_from_string trim_space text ≡ ok kp)
        × (new_command_derive_key text ≡ ok (new_command 0x80 0xd1 kp.source 0 kp.raw))
  unfolding new_command_derive_key derivation_p1_from_starting_point
  derive_key_agrees front last trimmed h small few =
      let raw_path = front ++ (last ∷ []) in
      let decoded = decode-encode_path front last h small in
      (
        record { source = source_master; raw = segment_bytes raw_path },
        key_path_from_string-encode raw_path trimmed
            (All-append (λ i. i < 0x100000000) front (last ∷ []) (omega arith, tt) h)
            (omega (arith, length-append front (last ∷ []))),
        rw decoded refl,
      )
