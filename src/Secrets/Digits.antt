-- ===== src/Secrets/Digits.antt =====
-- The digits of generated secrets.
use Prim.Native.Nat.{◌^◌}
use native.Mathlib.Nat.{pow-suc, pow-le-pow_right}
use keycard_go.Base.{
  ℕ, zero, suc, ◌+◌, ◌-◌, ◌/◌, ◌%◌, ◌<◌, ◌≤◌, ◌≡◌, refl, inl, inr, Bool-cases, true, [], ◌∷◌, ◌++◌,
  arith, ltb, length, length-append, length-replicate, replicate, All, All-append, ok,
}
use keycard_go.Base.Bytes.{Bytes}
use keycard_go.Base.Decimal.{print, print-All, value, value-print, IsDigit}
use keycard_go.Secrets.{
  Secrets, zero_padded, new_secrets, generate_secrets, generated, max_pin_number, max_puk_number,
}

length-print : (places k n : ℕ) → n < 10 ^ suc k → length (print places n) ≤ suc k
unfolding print
length-print zero k n h = omega arith
length-print (suc places) zero n h =
    let small : ltb n 10 ≡ true = ground (arith, pow-suc 10 0) in rw small (omega arith)
length-print (suc places) (suc k) n h = elim (Bool-cases (ltb n 10)) [
  | inl small ↦ rw small (omega arith)
  | inr large ↦
      let shorter = length-print places k (n / 10) (omega (arith, pow-suc 10 (suc k), h)) in
      rw (large, length-append (print places (n / 10)) ((48 + n % 10) ∷ []))
        (omega (arith, shorter))
]

value-zeros :
    (count : ℕ) (digits : Bytes) → value 0 (replicate count 0x30 ++ digits) ≡ value 0 digits
unfolding value
value-zeros zero digits = refl
value-zeros (suc count) digits = value-zeros count digits

zeros-All : (count : ℕ) → All IsDigit (replicate count 0x30)
zeros-All zero = tt
zeros-All (suc count) = (omega arith, zeros-All count)

-- A number in exactly so many decimal digits.
abbrev pub IsPadded : ℕ → ℕ → Bytes → Type 0
IsPadded width n text = (length text ≡ width) × All IsDigit text × (value 0 text ≡ n)

zero_padded-IsPadded :
    (k n : ℕ) → n < 10 ^ suc k → suc k ≤ 20 → IsPadded (suc k) n (zero_padded (suc k) n)
unfolding zero_padded
zero_padded-IsPadded k n h le =
    let digits = print 20 n in
    let zeros : Bytes = replicate (suc k - length digits) 0x30 in
    let few = length-print 20 k n h in
    let most = pow-le-pow_right {n = 10} (omega arith) {i = suc k} {j = 20} le in
    (
      omega (
        arith,
        length-append zeros digits,
        length-replicate {A = ℕ} (suc k - length digits) 0x30,
        few,
      ),
      All-append IsDigit zeros digits (print-All 20 n) (zeros-All (suc k - length digits)),
      rw (value-zeros (suc k - length digits) digits) (value-print 20 n (omega (arith, h, most))),
    )

module _ (pairing_token_of base64 : Bytes → Bytes) where
  -- With random bytes for the password, and numbers in the ranges that rand.Int is asked for, the
  -- generated PIN is the one number in six decimal digits and the PUK the other in twelve; the
  -- pairing token is that of the generated password, as NewSecrets makes it.
  pub generate_secrets_lem :
      (random : Bytes) (puk pin : ℕ)
      → puk < max_puk_number
      → pin < max_pin_number
      → (secrets : Secrets) × (generate_secrets pairing_token_of base64
            (ok random)
            (ok puk)
            (ok pin)
          ≡ ok secrets)
        × IsPadded 6 pin secrets.pin
        × IsPadded 12 puk secrets.puk
        × (secrets ≡ new_secrets pairing_token_of secrets.pin secrets.puk (base64 random))
  unfolding generate_secrets generated new_secrets
  generate_secrets_lem random puk pin small_puk small_pin = (
    record {
      pin = zero_padded 6 pin;
      puk = zero_padded 12 puk;
      pairing_pass = base64 random;
      pairing_token = pairing_token_of (base64 random);
    },
    refl,
    zero_padded-IsPadded 5 pin (omega (arith, small_pin)) (omega arith),
    zero_padded-IsPadded 11 puk (omega (arith, small_puk)) (omega arith),
    refl,
  )
