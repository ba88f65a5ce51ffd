-- ===== src/Crypto/Padding.antt =====
-- appendPadding and removePadding of crypto/crypto.go (ISO 7816-4).
use keycard_go.Base.{
  ℕ, zero, suc, ◌+◌, ◌-◌, ◌%◌, ◌<◌, ◌≤◌, ◌≡◌, ap, sym, ◌∙◌, ◌∷◌, ◌++◌, arith, ◌==◌, if◌then◌else◌,
  length, get_or, take, get_or-append, get_or-replicate, replicate, length-append, length-replicate,
  take-append,
}
use native.Mathlib.Nat.{mod-lt, mod-add-mod, mod_self}
use keycard_go.Base.Bytes.{Bytes}

unfoldable pub append_padding : ℕ → Bytes → Bytes
append_padding block_size plain =
    let padding_size = block_size - length plain % block_size in
    plain ++ 0x80 ∷ replicate (padding_size - 1) 0

-- `for ; i > len(data)-blockSize; i--`, by the rounds left.
padding_loop : Bytes → ℕ → ℕ → ℕ
padding_loop padded zero i = i
padding_loop padded (suc left) i =
    let next = padding_loop padded left (i - 1) in if get_or padded i 0 == 0x80 then i else next

-- Of a slice of at least one block.
unfoldable pub remove_padding : ℕ → Bytes → Bytes
unfolding padding_loop
remove_padding block_size padded =
    take (padding_loop padded (block_size - 1) (length padded - 1)) padded

-- Whatever the data, padding makes whole blocks of it, at least one.
pub length-append_padding :
    (n : ℕ) (plain : Bytes)
    → 0 < n
    → (length (append_padding n plain) % n ≡ 0) × (n ≤ length (append_padding n plain))
unfolding append_padding
length-append_padding n plain h =
    let k = n - length plain % n in
    let size : length (plain ++ 0x80 ∷ replicate (k - 1) 0) ≡ length plain + k = omega (
      arith,
      mod-lt (length plain) h,
      length-append plain (0x80 ∷ replicate (k - 1) 0),
      length-replicate (k - 1) zero,
    ) in
    let whole : length plain % n + k ≡ n = omega (arith, mod-lt (length plain) h) in
    rw size (
      sym (mod-add-mod (length plain) n k) ∙ ap (λ (t : ℕ). t % n) whole ∙ mod_self n,
      omega (arith, whole),
    )

-- Padding adds a block at most.
pub append_padding_le :
    (n : ℕ) (plain : Bytes) → 0 < n → length (append_padding n plain) ≤ length plain + n
unfolding append_padding
append_padding_le n plain h =
    let k = n - length plain % n in
    omega (
      arith,
      mod-lt (length plain) h,
      length-append plain (0x80 ∷ replicate (k - 1) 0),
      length-replicate (k - 1) zero,
    )

module _ (plain : Bytes) (m : ℕ) where
  abbrev padded : Bytes
  padded = plain ++ 0x80 ∷ replicate m 0

  -- From the `j`-th zero the loop goes back to the 0x80.
  padding_loop_lem :
      (left j : ℕ) → j ≤ left → padding_loop padded left (length plain + j) ≡ length plain
  unfolding padding_loop
  padding_loop_lem zero zero h = omega arith
  padding_loop_lem zero (suc j) h = absurd (omega arith)
  padding_loop_lem (suc left) zero h =
      rw (get_or-append plain (0x80 ∷ replicate m 0) 0 0) (omega arith)
  padding_loop_lem (suc left) (suc j) h =
      let back : length plain + suc j - 1 ≡ length plain + j = omega arith in
      rw (get_or-append plain (0x80 ∷ replicate m 0) (suc j) 0, get_or-replicate m j zero, back)
        (padding_loop_lem left j (omega arith))

-- Removing the padding gives back the data that was padded, for every block size and data of any
-- length.
pub remove_padding-append_padding :
    (n : ℕ) (plain : Bytes) → 0 < n → remove_padding n (append_padding n plain) ≡ plain
unfolding remove_padding append_padding
remove_padding-append_padding n plain h =
    let m = n - length plain % n - 1 in
    let last : length (padded plain m) - 1 ≡ length plain + m =
      omega (arith, length-append plain (0x80 ∷ replicate m 0), length-replicate m zero) in
    rw (last, padding_loop_lem plain m (n - 1) m (omega arith))
      (take-append plain (0x80 ∷ replicate m 0))
