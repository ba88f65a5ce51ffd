-- ===== src/Types/Mnemonic/Checksum.antt =====
-- validateChecksum of types/mnemonic.go against the words of BIP-39: the first 32 of every 33 bits are
-- the entropy, and the others the first bits of its hash.
use keycard_go.Base.{
  ℕ, zero, suc, ◌+◌, ◌-◌, ◌*◌, ◌/◌, ◌%◌, ◌^◌, ◌<◌, ◌≤◌, ◌≡◌, ◌↔◌, refl, sym, ap, ◌∙◌, inl, inr,
  Bool, Bool-cases, true, false, List, [], ◌∷◌, arith, ltb, ge→ltb, ◌==◌, if◌then◌else◌, length,
  length-take, length-replicate, take, drop, get_or, All-take, get_or-replicate, replicate,
}
use native.Mathlib.Nat.{pow-le-pow_right, zero-div}
use keycard_go.Base.Bits.{bit_or-lt_pow}
use keycard_go.Base.Bytes.{Bytes, AllBytes}
use keycard_go.Types.Mnemonic.{
  set_bit, bit_loop, index_loop, bit_at, checksum_loop, validate_checksum,
}
use keycard_go.Types.Mnemonic.Bits.{stream, IsWritten, index_loop-IsWritten}

set_bit-AllBytes :
    (n k : ℕ) (bits : Bytes) → k < 8 → AllBytes bits → AllBytes (set_bit n (2 ^ k) bits)
unfolding set_bit
set_bit-AllBytes n k [] small h = tt
set_bit-AllBytes zero k (b ∷ bits) small (hb, hs) =
    let mask : 2 ^ k ≤ 2 ^ 7 =
      pow-le-pow_right {n = 2} (omega arith) {i = k} {j = 7} (omega (arith, small)) in
    (bit_or-lt_pow 8 b (2 ^ k) hb (omega (arith, mask)), hs)
set_bit-AllBytes (suc n) k (b ∷ bits) small (hb, hs) = (hb, set_bit-AllBytes n k bits small hs)

AllBytes-if :
    (b : Bool) (xs ys : Bytes) → AllBytes xs → AllBytes ys → AllBytes (if b then xs else ys)
AllBytes-if true xs ys hx hy = hx
AllBytes-if false xs ys hx hy = hy

bit_loop-AllBytes :
    (left i idx : ℕ) (bits : Bytes) → AllBytes bits → AllBytes (bit_loop left i idx bits)
unfolding bit_loop
bit_loop-AllBytes zero i idx bits h = h
bit_loop-AllBytes (suc left) i idx bits h =
    let pos = i * 11 + (10 - left) in
    bit_loop-AllBytes left i idx _ (
      AllBytes-if (idx / 2 ^ left % 2 == 1) (set_bit (pos / 8) (2 ^ (7 - pos % 8)) bits) bits
        (set_bit-AllBytes (pos / 8) (7 - pos % 8) bits (omega arith) h) h)

index_loop-AllBytes :
    (i : ℕ) (indices : List ℕ) (bits : Bytes) → AllBytes bits → AllBytes (index_loop i indices bits)
unfolding index_loop
index_loop-AllBytes i [] bits h = h
index_loop-AllBytes i (idx ∷ rest) bits h =
    index_loop-AllBytes (i + 1) rest (bit_loop 11 i idx bits) (bit_loop-AllBytes 11 i idx bits h)

checksum_loop_iff :
    (left i : ℕ) (expected actual : Bytes)
    → (checksum_loop left i expected actual ≡ true)
      ↔ ((j : ℕ) → i ≤ j → j < i + left → bit_at expected j ≡ bit_at actual j)
unfolding checksum_loop
checksum_loop_iff zero i expected actual = ((λ h j low high. absurd (omega arith)), λ h. refl)
checksum_loop_iff (suc left) i expected actual =
    let (forth, back) = checksum_loop_iff left (i + 1) expected actual in
    elim (Bool-cases (bit_at expected i == bit_at actual i)) [
      | inl same ↦
          let e : bit_at expected i ≡ bit_at actual i = ground (arith, same) in
          rw same (
            (λ h j low high. elim (Bool-cases (j == i)) [
              | inl here ↦ let at : j ≡ i = ground (arith, here) in rw at e
              | inr there ↦ forth h j (ground (arith, there, low)) (omega (arith, high))
            ]),
            λ h. back (λ j low high. h j (omega (arith, low)) (omega (arith, high))),
          )
      | inr other ↦
          rw other ((λ h. cc), λ h. ground (arith, other, h i (omega arith) (omega arith)))
    ]

get_or-take : (n m : ℕ) (xs : Bytes) → m < n → get_or (take n xs) m 0 ≡ get_or xs m 0
get_or-take zero m xs h = absurd (omega arith)
get_or-take (suc n) m [] h = refl
get_or-take (suc n) zero (x ∷ xs) h = refl
get_or-take (suc n) (suc m) (x ∷ xs) h = get_or-take n m xs (omega (arith, h))

get_or-drop : (n m : ℕ) (xs : Bytes) → get_or (drop n xs) m 0 ≡ get_or xs (n + m) 0
get_or-drop zero m xs = ap (λ (k : ℕ). get_or xs k 0) (omega arith)
get_or-drop (suc n) m [] = refl
get_or-drop (suc n) m (x ∷ xs) =
    get_or-drop n m xs ∙ let e : suc n + m ≡ suc (n + m) = omega arith in rw e refl

bit_at-take : (n q : ℕ) (bits : Bytes) → q < 8 * n → bit_at (take n bits) q ≡ bit_at bits q
unfolding bit_at
bit_at-take n q bits h = rw (get_or-take n (q / 8) bits (omega (arith, h))) refl

bit_at-drop : (n q : ℕ) (bits : Bytes) → bit_at (drop n bits) q ≡ bit_at bits (8 * n + q)
unfolding bit_at
bit_at-drop n q bits =
    let byte : n + q / 8 ≡ (8 * n + q) / 8 = omega arith in
    let digit : q % 8 ≡ (8 * n + q) % 8 = omega arith in
    rw (get_or-drop n (q / 8) bits, byte, digit) refl

zeros_lem :
    (f : ℕ → ℕ) (count : ℕ) → IsWritten f count 0 (replicate count 0) × AllBytes (replicate count 0)
unfolding bit_at
zeros_lem f count = (
  record {
    size = length-replicate {A = ℕ} count 0;
    bit = λ q.
        rw
          (
            get_or-replicate {A = ℕ} count (q / 8) 0,
            zero-div (2 ^ (7 - q % 8)),
            ge→ltb q 0 (omega arith),
          )
          refl;
  },
  zero_bytes count,
)
  where
    zero_bytes : (n : ℕ) → AllBytes (replicate n 0)
    zero_bytes zero = tt
    zero_bytes (suc n) = (omega arith, zero_bytes n)

-- The bits of a list of indexes.
abbrev stream_bytes : ℕ → List ℕ → Bytes
stream_bytes k indices = index_loop 0 indices (replicate ((3 * k * 11 + 7) / 8) 0)

module _ (k : ℕ) (indices : List ℕ) (h : length indices ≡ 3 * k) where
  stream_bytes-IsWritten :
      IsWritten
        (stream indices)
        ((3 * k * 11 + 7) / 8)
        ((0 + length indices) * 11)
        (stream_bytes k indices)
  stream_bytes-IsWritten =
      index_loop-IsWritten (stream indices) ((3 * k * 11 + 7) / 8) 0 indices _
        (λ q. ap (stream indices) (omega arith)) (omega (arith, h))
        (zeros_lem (stream indices) ((3 * k * 11 + 7) / 8)).0

  stream_bytes-bit : (q : ℕ) → q < 33 * k → bit_at (stream_bytes k indices) q ≡ stream indices q
  stream_bytes-bit q small =
      let inside : ltb q ((0 + length indices) * 11) ≡ true = ground (arith, h, small) in
      stream_bytes-IsWritten.bit q ∙ rw inside refl

  module _ (sha256 : Bytes → Bytes) where
    -- Of three times `k` indexes: the first 32 times `k` bits of their eleven-bit words are the bytes
    -- that are hashed, and validateChecksum accepts exactly if the `k` bits behind them are the first
    -- `k` bits of the hash.
    pub validate_checksum_lem :
        (entropy : Bytes) × (length entropy ≡ 4 * k)
        × AllBytes entropy
        × ((q : ℕ) → q < 32 * k → bit_at entropy q ≡ stream indices q)
        × ((validate_checksum sha256 indices (3 * k) ≡ true)
            ↔ ((j : ℕ) → j < k → bit_at (sha256 entropy) j ≡ stream indices (32 * k + j)))
    unfolding validate_checksum
    validate_checksum_lem =
        let bits = stream_bytes k indices in
        let entropy = take (4 * k) bits in
        let words : 3 * k / 3 ≡ k = omega arith in
        let bytes : (3 * k * 11 - k) / 8 ≡ 4 * k = omega arith in
        let actual : (j : ℕ) → j < k → bit_at (drop (4 * k) bits) j ≡ stream indices (32 * k + j) =
          λ j small.
            bit_at-drop (4 * k) j bits
            ∙ ap (bit_at bits) (omega arith)
            ∙ stream_bytes-bit (32 * k + j) (omega (arith, small)) in
        let (forth, back) = checksum_loop_iff k 0 (sha256 entropy) (drop (4 * k) bits) in
        (
          entropy,
          omega (arith, length-take (4 * k) bits, stream_bytes-IsWritten.size),
          All-take (λ b. b < 256) (4 * k) bits
              (index_loop-AllBytes 0 indices _
                (zeros_lem (stream indices) ((3 * k * 11 + 7) / 8)).1),
          (λ q small.
              bit_at-take (4 * k) q bits (omega (arith, small))
              ∙ stream_bytes-bit q (omega (arith, small))),
          (
            rw (validate_checksum, words, bytes)
                (λ accepted j small.
                  forth accepted j (omega arith) (omega (arith, small)) ∙ actual j small),
            rw (validate_checksum, words, bytes)
                (λ same. back (λ j low small.
                  same j (omega (arith, small)) ∙ sym (actual j (omega (arith, small))))),
          ),
        )
