-- ===== src/Types/Mnemonic/Bits.antt =====
-- The bit stream that validateChecksum of types/mnemonic.go makes of the indexes.
use keycard_go.Base.{
  ℕ, zero, suc, ◌+◌, ◌-◌, ◌*◌, ◌/◌, ◌%◌, ◌^◌, ◌<◌, ◌≤◌, ◌≡◌, refl, sym, ap, ◌∙◌, inl, inr,
  Bool-cases, true, false, List, [], ◌∷◌, arith, ltb, ◌==◌, if◌then◌else◌, length, get_or, bit_or,
}
use Prim.Native.Nat.{max}
use native.Mathlib.Nat.{pow-suc, pow-succ', div-div-eq-div-mul, zero-div}
use keycard_go.Base.Bits.{bit_or_halves}
use mathlib.Core.Path.{subst}
use keycard_go.Base.Bytes.{Bytes}
use keycard_go.Types.Mnemonic.{set_bit, bit_loop, index_loop, bit_at}

half_of_power : (x j : ℕ) → x / 2 ^ suc j ≡ x / 2 / 2 ^ j
half_of_power x j = ap (λ (m : ℕ). x / m) (pow-succ' 2 j) ∙ sym (div-div-eq-div-mul x 2 (2 ^ j))

bit_of_or : (x y j : ℕ) → bit_or x y / 2 ^ j % 2 ≡ max (x / 2 ^ j % 2) (y / 2 ^ j % 2)
bit_of_or x y zero = omega (arith, bit_or_halves x y)
bit_of_or x y (suc j) =
    let half : bit_or x y / 2 ≡ bit_or (x / 2) (y / 2) = omega (arith, bit_or_halves x y) in
    rw (half_of_power (bit_or x y) j, half_of_power x j, half_of_power y j, half)
      (bit_of_or (x / 2) (y / 2) j)

bit_of_power : (k j : ℕ) → 2 ^ k / 2 ^ j % 2 ≡ (if j == k then 1 else 0)
bit_of_power zero zero = refl
bit_of_power (suc k) zero = rw (pow-suc 2 k) (ground arith)
bit_of_power zero (suc j) = rw (half_of_power 1 j, zero-div (2 ^ j)) (ground arith)
bit_of_power (suc k) (suc j) =
    let half : 2 ^ suc k / 2 ≡ 2 ^ k = omega (arith, pow-suc 2 k) in
    rw (half_of_power (2 ^ suc k) j, half) (bit_of_power k j ∙ ground arith)

-- Each index as eleven bits, big end first: the bit at a position, zero past the end.
abbrev pub stream : List ℕ → ℕ → ℕ
stream [] q = 0
stream (idx ∷ rest) q =
    let later = stream rest (q - 11) in if ltb q 11 then idx / 2 ^ (10 - q) % 2 else later

get_or-set_bit :
    (n mask : ℕ) (bits : Bytes) (m : ℕ)
    → n < length bits
    → get_or (set_bit n mask bits) m 0
      ≡ (if m == n then bit_or (get_or bits n 0) mask else get_or bits m 0)
unfolding set_bit
get_or-set_bit n mask [] m h = absurd (omega arith)
get_or-set_bit zero mask (b ∷ bits) zero h = refl
get_or-set_bit zero mask (b ∷ bits) (suc m) h = ground arith
get_or-set_bit (suc n) mask (b ∷ bits) zero h = ground arith
get_or-set_bit (suc n) mask (b ∷ bits) (suc m) h =
    get_or-set_bit n mask bits m (omega (arith, h)) ∙ ground arith

length-set_bit : (n mask : ℕ) (bits : Bytes) → length (set_bit n mask bits) ≡ length bits
unfolding set_bit
length-set_bit n mask [] = refl
length-set_bit zero mask (b ∷ bits) = refl
length-set_bit (suc n) mask (b ∷ bits) = ap suc (length-set_bit n mask bits)

bit_at-set_bit :
    (pos q : ℕ) (bits : Bytes)
    → pos / 8 < length bits
    → bit_at (set_bit (pos / 8) (2 ^ (7 - pos % 8)) bits) q
      ≡ (if q == pos then 1 else bit_at bits q)
unfolding bit_at
bit_at-set_bit pos q bits h =
    let found = get_or-set_bit (pos / 8) (2 ^ (7 - pos % 8)) bits (q / 8) h in
    let bit = bit_of_or (get_or bits (pos / 8) 0) (2 ^ (7 - pos % 8)) (7 - q % 8) in
    let mask = bit_of_power (7 - pos % 8) (7 - q % 8) in
    elim (Bool-cases (q == pos)) [
      | inl here ↦
          let same : (q / 8 == pos / 8) ≡ true = ground (arith, here) in
          let digit : (7 - q % 8 == 7 - pos % 8) ≡ true = ground (arith, here) in
          rw (found, same, bit, mask, digit, here) (omega arith)
      | inr there ↦ elim (Bool-cases (q / 8 == pos / 8)) [
        | inl same ↦
            let e : q / 8 ≡ pos / 8 = ground (arith, same) in
            let digit : (7 - q % 8 == 7 - pos % 8) ≡ false = ground (arith, there, e) in
            rw (found, same, bit, mask, digit, there, e) (omega arith)
        | inr other ↦ rw (found, other, there) refl
      ]
    ]

-- The first `n` bits are those of `f`, and the others zero.
pub record IsWritten (f : ℕ → ℕ) (count n : ℕ) (bits : Bytes) : Type 0 where
  pub size : length bits ≡ count
  pub bit : (q : ℕ) → bit_at bits q ≡ (if ltb q n then f q else 0)

module _ (f : ℕ → ℕ) (count : ℕ) where
  -- One bit more.
  abbrev written_bit : ℕ → ℕ → Bytes → Bytes
  written_bit value n bits = if value == 1 then set_bit (n / 8) (2 ^ (7 - n % 8)) bits else bits

  written_bit-IsWritten :
      (n : ℕ) (bits : Bytes)
      → n < 8 * count
      → f n < 2
      → IsWritten f count n bits
      → IsWritten f count (n + 1) (written_bit (f n) n bits)
  written_bit-IsWritten n bits fits small h = elim (Bool-cases (f n == 1)) [
    | inl one ↦
        let value : f n ≡ 1 = ground (arith, one) in
        rw one (record {
          size = length-set_bit (n / 8) (2 ^ (7 - n % 8)) bits ∙ h.size;
          bit = λ q. bit_at-set_bit n q bits (omega (arith, h.size, fits)) ∙ set_bits q value;
        })
    | inr other ↦
        let value : f n ≡ 0 = ground (arith, other, small) in
        rw other (record { size = h.size; bit = λ q. h.bit q ∙ kept_bits q value })
  ]
    where
      set_bits :
          (q : ℕ)
          → f n ≡ 1
          → (if q == n then 1 else bit_at bits q) ≡ (if ltb q (n + 1) then f q else 0)
      set_bits q value = elim (Bool-cases (q == n)) [
        | inl here ↦
            let e : q ≡ n = ground (arith, here) in
            let inside : ltb q (n + 1) ≡ true = ground (arith, e) in
            rw (here, inside, e) (sym value)
        | inr there ↦ rw there (h.bit q ∙ ground (arith, there))
      ]

      kept_bits :
          (q : ℕ) → f n ≡ 0 → (if ltb q n then f q else 0) ≡ (if ltb q (n + 1) then f q else 0)
      kept_bits q value = elim (Bool-cases (q == n)) [
        | inl here ↦
            let e : q ≡ n = ground (arith, here) in
            let inside : ltb q (n + 1) ≡ true = ground (arith, e) in
            let outside : ltb q n ≡ false = ground (arith, e) in rw (inside, outside, e) (sym value)
        | inr there ↦ ground (arith, there)
      ]

  bit_loop-IsWritten :
      (left i idx : ℕ) (bits : Bytes)
      → left ≤ 11
      → i * 11 + 11 ≤ 8 * count
      → ((b : ℕ) → b < 11 → f (i * 11 + (10 - b)) ≡ idx / 2 ^ b % 2)
      → IsWritten f count (i * 11 + (11 - left)) bits
      → IsWritten f count (i * 11 + 11) (bit_loop left i idx bits)
  unfolding bit_loop
  bit_loop-IsWritten zero i idx bits le fits value h = h
  bit_loop-IsWritten (suc left) i idx bits le fits value h =
      let pos = i * 11 + (10 - left) in
      let start : i * 11 + (11 - suc left) ≡ pos = omega (arith, le) in
      let after : pos + 1 ≡ i * 11 + (11 - left) = omega (arith, le) in
      let v = value left (omega (arith, le)) in
      let small : f pos < 2 = omega (arith, v) in
      let next =
        written_bit-IsWritten pos bits (omega (arith, fits, le)) small
          (subst (λ n. IsWritten f count n bits) start h) in
      bit_loop-IsWritten left i idx (written_bit (idx / 2 ^ left % 2) pos bits) (omega (arith, le))
        fits value
        (subst (λ n. IsWritten f count n (written_bit (idx / 2 ^ left % 2) pos bits)) after
          (subst (λ x. IsWritten f count (pos + 1) (written_bit x pos bits)) v next))

  pub index_loop-IsWritten :
      (i : ℕ) (indices : List ℕ) (bits : Bytes)
      → ((q : ℕ) → f (i * 11 + q) ≡ stream indices q)
      → (i + length indices) * 11 ≤ 8 * count
      → IsWritten f count (i * 11) bits
      → IsWritten f count ((i + length indices) * 11) (index_loop i indices bits)
  unfolding index_loop
  index_loop-IsWritten i [] bits value fits h =
      let e : i * 11 ≡ (i + 0) * 11 = omega arith in subst (λ n. IsWritten f count n bits) e h
  index_loop-IsWritten i (idx ∷ rest) bits value fits h =
      let this : (b : ℕ) → b < 11 → f (i * 11 + (10 - b)) ≡ idx / 2 ^ b % 2 =
        λ b small. value (10 - b) ∙ first b small in
      let next =
        bit_loop-IsWritten 11 i idx bits (omega arith) (omega (arith, fits)) this
          (subst (λ n. IsWritten f count n bits) (omega arith) h) in
      let e : i * 11 + 11 ≡ (i + 1) * 11 = omega arith in
      let same : (i + 1 + length rest) * 11 ≡ (i + suc (length rest)) * 11 = omega arith in
      subst (λ n. IsWritten f count n (index_loop (i + 1) rest (bit_loop 11 i idx bits))) same
        (index_loop-IsWritten (i + 1) rest (bit_loop 11 i idx bits)
          (λ q. ap f (omega arith) ∙ value (11 + q) ∙ later q) (omega (arith, fits))
          (subst (λ n. IsWritten f count n (bit_loop 11 i idx bits)) e next))
    where
      first : (b : ℕ) → b < 11 → stream (idx ∷ rest) (10 - b) ≡ idx / 2 ^ b % 2
      first b small =
          let inside : ltb (10 - b) 11 ≡ true = ground arith in
          let e : 10 - (10 - b) ≡ b = omega (arith, small) in rw (inside, e) refl

      later : (q : ℕ) → stream (idx ∷ rest) (11 + q) ≡ stream rest q
      later q =
          let outside : ltb (11 + q) 11 ≡ false = ground arith in
          let e : 11 + q - 11 ≡ q = omega arith in rw (outside, e) refl
