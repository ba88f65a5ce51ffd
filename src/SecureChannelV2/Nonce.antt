-- ===== src/SecureChannelV2/Nonce.antt =====
-- incrementNonce: the 13-byte counter is a big-endian number.
use keycard_go.Base.{
  ℕ, suc, ◌+◌, ◌*◌, ◌^◌, ◌%◌, ◌<◌, ◌≡◌, ◌↔◌, refl, ap, sym, ◌∙◌, Bool, true, false, [], ◌∷◌, arith,
  ◌==◌, if◌then◌else◌, length, dec_lt, Bool-cases, inl, inr, ◌≤◌,
}
use native.Mathlib.Nat.{pow-suc, mod_self, mod-eq_of_lt}
use keycard_go.Base.Bytes.{Bytes, uint8, AllBytes}

-- The loop goes from the last byte to the first, and stops at the first byte that does not wrap to
-- zero; the second component says that it met no such byte.
unfoldable pub increment_bytes : Bytes → Bytes × Bool
increment_bytes [] = ([], true)
increment_bytes (b ∷ rest) =
    let (rest', carry) = increment_bytes rest in
    if carry then (uint8 (b + 1) ∷ rest', uint8 (b + 1) == 0) else (b ∷ rest', false)

-- The number that the bytes stand for.
unfoldable pub nonce_value : Bytes → ℕ
nonce_value [] = 0
nonce_value (b ∷ rest) = b * 256 ^ length rest + nonce_value rest

pub nonce_value-lt_pow : (bs : Bytes) → AllBytes bs → nonce_value bs < 256 ^ length bs
unfolding nonce_value
nonce_value-lt_pow [] h = omega arith
nonce_value-lt_pow (b ∷ rest) h =
    let p = 256 ^ length rest in
    omega (arith, nonce_value-lt_pow rest h.1, pow-suc 256 (length rest), mul_mono b p h.0)
  where
    mul_mono : (b p : ℕ) → b < 256 → b * p + p ≤ p * 256
    mul_mono b p h = grind arith

-- What the loop makes of the bytes.
pub record Incremented (bs : Bytes) (bs' : Bytes) (overflow : Bool) : Type 0 where
  pub size : length bs' ≡ length bs
  pub bytes : AllBytes bs'
  pub wraps : overflow ≡ true → (nonce_value bs + 1 ≡ 256 ^ length bs) × (nonce_value bs' ≡ 0)
  pub counts : overflow ≡ false → nonce_value bs' ≡ nonce_value bs + 1

carry_step :
    (b : ℕ) (rest rest' : Bytes)
    → b < 256
    → Incremented rest rest' true
    → Incremented (b ∷ rest) (uint8 (b + 1) ∷ rest') (uint8 (b + 1) == 0)
unfolding nonce_value
carry_step b rest rest' hb r = elim (dec_lt b 255) [
  | yes small ↦
      let e : uint8 (b + 1) ≡ b + 1 = omega arith in
      let go_on : ((b + 1) == 0) ≡ false = ground arith in
      rw (e, go_on)
        (record {
          size = ap suc r.size;
          bytes = (omega arith, r.bytes);
          wraps = λ h. cc;
          counts = λ h. rw r.size (omega (arith, r.wraps refl));
        })
  | no last ↦
      let top : b ≡ 255 = omega arith in
      rw top (record {
        size = ap suc r.size;
        bytes = (omega arith, r.bytes);
        wraps = λ h. omega (arith, r.wraps refl, pow-suc 256 (length rest));
        counts = λ h. cc;
      })
]

keep_step :
    (b : ℕ) (rest rest' : Bytes)
    → b < 256
    → Incremented rest rest' false
    → Incremented (b ∷ rest) (b ∷ rest') false
unfolding nonce_value
keep_step b rest rest' hb r = record {
  size = ap suc r.size;
  bytes = (hb, r.bytes);
  wraps = λ h. cc;
  counts = λ h. rw (r.size) (omega (arith, r.counts refl));
}

pub increment_bytes_lem :
    (bs : Bytes) → AllBytes bs → Incremented bs (increment_bytes bs).0 (increment_bytes bs).1
unfolding increment_bytes
increment_bytes_lem [] h = unfold nonce_value in ground arith
increment_bytes_lem (b ∷ rest) h = elim (Bool-cases (increment_bytes rest).1) [
  | inl carry ↦
      rw carry (
        carry_step b rest (increment_bytes rest).0 h.0 (rw carry at (increment_bytes_lem rest h.1)))
  | inr stop ↦
      rw stop
        (keep_step b rest (increment_bytes rest).0 h.0 (rw stop at (increment_bytes_lem rest h.1)))
]

-- The nonce counts up by one from one use to the next; the loop reports an overflow exactly at the
-- last of the 256 ^ 13 values, and then the counter is zero.
pub increment_counts :
    (bs : Bytes)
    → AllBytes bs
    → (nonce_value (increment_bytes bs).0 ≡ (nonce_value bs + 1) % 256 ^ length bs)
      × (((increment_bytes bs).1 ≡ true) ↔ (nonce_value bs + 1 ≡ 256 ^ length bs))
      × (length (increment_bytes bs).0 ≡ length bs)
increment_counts bs h =
    let r = increment_bytes_lem bs h in
    let below = nonce_value-lt_pow bs h in
    elim (Bool-cases (increment_bytes bs).1) [
      | inl carry ↦
          let w = r.wraps carry in
          (w.1 ∙ rw w.0 (sym (mod_self (256 ^ length bs))), ((λ _. w.0), (λ _. carry)), r.size)
      | inr stop ↦
          let c = r.counts stop in
          let next = nonce_value-lt_pow (increment_bytes bs).0 r.bytes in
          let fits : nonce_value bs + 1 < 256 ^ length bs = omega (arith, c, rw r.size at next) in
          (
            c ∙ sym (mod-eq_of_lt fits),
            ((λ e. cc (e, stop)), (λ e. absurd (omega (arith, e, fits)))),
            r.size,
          )
    ]
