-- ===== src/Types/Signature/Recovery.antt =====
-- The components of a signature, and the search for its recovery id.
use keycard_go.Base.{
  ℕ, suc, ◌+◌, ◌-◌, ◌<◌, ◌≤◌, ◌≡◌, ◌⊎◌, inl, inr, refl, sym, ◌∙◌, Bool-cases, false, ltb,
  drop-append, [], ◌∷◌, ◌++◌, append-nil, arith, length, length-append, Result, ok,
}
use keycard_go.Base.Bytes.{Bytes, bytes_equal}
use keycard_go.Tlv.Writer.Output.{primitive, primitive_le}
use keycard_go.Tlv.Reader.{new_ber_tlv_reader}
use keycard_go.Tlv.Reader.Fields.{value_lem, next_is}
use keycard_go.Types.Signature.{
  der_signature_to_rs, in_sequence, read_integers, last_32, calculate_v, v_loop, matched, candidate,
}

no_bytes : (xs : Bytes) → length xs ≡ 0 → xs ≡ []
no_bytes [] h = refl
no_bytes (x ∷ xs) h = absurd (omega arith)

-- What is left of an integer, and what stood in front of it: nothing, unless 32 bytes are left.
abbrev pub IsCut : Bytes → Bytes → Type 0
IsCut front kept = (length kept ≡ 32) ⊎ ((front ≡ []) × (length kept < 32))

last_32-append : (front kept : Bytes) → IsCut front kept → last_32 (front ++ kept) ≡ kept
last_32-append front kept (inl full) =
    let total = length-append front kept in
    elim (Bool-cases (ltb 32 (length (front ++ kept)))) [
      | inl long ↦
          let cut : length (front ++ kept) - 32 ≡ length front = omega (arith, total, full) in
          rw (long, cut) (drop-append front kept)
      | inr short ↦
          let none_left : length front ≡ 0 = ground (arith, total, full, short) in
          rw (short, no_bytes front none_left) refl
    ]
last_32-append front kept (inr (none_left, short)) =
    let few : ltb 32 (length kept) ≡ false = ground (arith, short) in rw (none_left, few) refl

integers_lem :
    (r s rest : Bytes)
    → length r ≤ 255
    → length s ≤ 255
    → der_signature_to_rs (primitive 0x30 (primitive 0x02 r ++ primitive 0x02 s) ++ rest)
      ≡ ok (last_32 r, last_32 s)
unfolding der_signature_to_rs in_sequence read_integers
integers_lem r s rest hr hs =
    let content = primitive 0x02 r ++ primitive 0x02 s in
    let small : length content < 0x100000000 = omega (
      arith,
      primitive_le 0x02 r,
      primitive_le 0x02 s,
      length-append (primitive 0x02 r) (primitive 0x02 s),
    ) in
    let reader = new_ber_tlv_reader (primitive 0x30 content ++ rest) in
    let (_, outer, _) = value_lem reader 0x30 content rest small refl in
    let is_der = next_is reader 0x30 _ refl in
    let (r1, first, left1) =
      value_lem (new_ber_tlv_reader content) 0x02 r (primitive 0x02 s) (omega arith) refl in
    let (_, second, _) =
      value_lem r1 0x02 s [] (omega arith) (left1 ∙ sym (append-nil (primitive 0x02 s))) in
    rw (der_signature_to_rs, is_der, outer, in_sequence, read_integers, first, second) refl

-- Of the DER sequence of two integers of at most 255 bytes, with anything behind it,
-- DERSignatureToRS cuts the bytes of each integer down to the last 32, and returns those of an
-- integer that has fewer as they are: it does not pad to 32 bytes.
pub der_signature_to_rs_lem :
    (front_r r front_s s rest : Bytes)
    → length (front_r ++ r) ≤ 255
    → length (front_s ++ s) ≤ 255
    → IsCut front_r r
    → IsCut front_s s
    → der_signature_to_rs
        (primitive 0x30 (primitive 0x02 (front_r ++ r) ++ primitive 0x02 (front_s ++ s)) ++ rest)
      ≡ ok (r, s)
der_signature_to_rs_lem front_r r front_s s rest hr hs cut_r cut_s =
    let part_r = last_32-append front_r r cut_r in
    let part_s = last_32-append front_s s cut_s in
    integers_lem (front_r ++ r) (front_s ++ s) rest hr hs ∙ rw (part_r, part_s) refl

module _ (ecrecover : Bytes → Bytes → Result Bytes) (message pub_key : Bytes) where
  -- The key that a recovery id stands for is another one.
  abbrev pub IsOther : Bytes → ℕ → Type 0
  IsOther rs v =
      (recovered : Bytes) × (ecrecover message (rs ++ (v ∷ [])) ≡ ok recovered)
      × (bytes_equal pub_key (candidate ecrecover pub_key recovered) ≡ false)

  no_match :
      (rounds i : ℕ) (rs : Bytes)
      → IsOther rs i
      → v_loop ecrecover (suc rounds) i message pub_key rs
        ≡ v_loop ecrecover rounds (i + 1) message pub_key rs
  unfolding v_loop matched
  no_match rounds i rs (recovered, found, other) = rw (v_loop, found, matched, other) refl

  -- When none of the four recovery ids gives the public key, calculateV returns 3 and no error.
  calculate_v_lem :
      (r s : Bytes)
      → IsOther (r ++ s) 0
      → IsOther (r ++ s) 1
      → IsOther (r ++ s) 2
      → IsOther (r ++ s) 3
      → calculate_v ecrecover message pub_key r s ≡ ok 3
  unfolding calculate_v v_loop
  calculate_v_lem r s h0 h1 h2 h3 =
      let rs = r ++ s in
      no_match 3 0 rs h0 ∙ no_match 2 1 rs h1 ∙ no_match 1 2 rs h2 ∙ no_match 0 3 rs h3
