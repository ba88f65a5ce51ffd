-- ===== src/Types/Metadata/Rounds.antt =====
-- The loop of ParseMetadata ends on any input, and what it returns is bounded.
use keycard_go.Base.{
  ℕ, zero, suc, ◌+◌, ◌<◌, ◌≤◌, ◌≡◌, ◌≢◌, refl, inl, inr, ◌⊎◌, true, false, List, [], ◌∷◌, ◌++◌,
  arith, ltb, ltb→ge, ge→ltb, Bool-cases, length-append, ap, ◌∙◌, length, not, Bool, ◌==◌, ◌/◌,
  bit_and, if◌then◌else◌, Result, ok, err, Error, out_of_rounds,
}
use mathlib.Core.Path.{subst}
use keycard_go.Base.Bytes.{Bytes, slice}
use keycard_go.Tlv.Length.{decode_ber_length}
use keycard_go.Tlv.Length.Bounds.{decode_bounds, decode_never_out_of_rounds}
use keycard_go.Types.Metadata.Ranges.{length-run}
use keycard_go.Types.Metadata.{
  parse_loop, read_range, with_start, with_count, run, max_total_wallets, max_wallet_range_count,
  parse_metadata, with_wallets, Metadata,
}

-- A range is read, and the offset moves on, or there is an error of the decoder.
abbrev Reads : ℕ → Result (ℕ × (ℕ × ℕ)) → Type 0
Reads off (ok (start, (count, next))) = off < next
Reads off (err e) = e ≢ out_of_rounds

with_count-Reads :
    (off at start : ℕ) (r : Result (ℕ × ℕ)) (input : Bytes)
    → off < at
    → decode_ber_length input at ≡ r
    → Reads off (with_count start r)
unfolding with_count
with_count-Reads off at start (ok (count, next)) input lt h =
    omega (arith, decode_bounds input at count next h)
with_count-Reads off at start (err e) input lt h =
    λ same. decode_never_out_of_rounds input at (h ∙ ap err same)

with_start-Reads :
    (off : ℕ) (r : Result (ℕ × ℕ)) (input : Bytes)
    → decode_ber_length input off ≡ r
    → Reads off (with_start input r)
unfolding with_start
with_start-Reads off (ok (start, next)) input h =
    with_count-Reads off next start (decode_ber_length input next) input
      (decode_bounds input off start next h).0 refl
with_start-Reads off (err e) input h =
    λ same. decode_never_out_of_rounds input off (h ∙ ap err same)

-- What a loop with enough rounds returns.
abbrev Ends : Result (List ℕ) → Type 0
Ends (ok wallets) = length wallets ≤ max_total_wallets
Ends (err e) = e ≢ out_of_rounds

result-cases :
    (r : Result (ℕ × (ℕ × ℕ)))
    → ((e : Error) × (r ≡ err e))
      ⊎ ((start : ℕ) × (count : ℕ) × (next : ℕ) × (r ≡ ok (start, (count, next))))
result-cases (err e) = inl (e, refl)
result-cases (ok (start, (count, next))) = inr (start, count, next, refl)

parse_loop-Ends :
    (rounds : ℕ) (input : Bytes) (off total : ℕ) (wallets : List ℕ)
    → length input ≤ off + rounds
    → length wallets ≡ total
    → total ≤ max_total_wallets
    → Ends (parse_loop rounds input off total wallets)
unfolding parse_loop read_range
parse_loop-Ends zero input off total wallets enough size few =
    rw (parse_loop, ge→ltb off (length input) (omega arith)) (omega arith)
parse_loop-Ends (suc rounds) input off total wallets enough size few =
    let reads = with_start-Reads off (decode_ber_length input off) input refl in
    let range = with_start input (decode_ber_length input off) in
    elim (Bool-cases (ltb off (length input))) [
      | inr done ↦ rw (parse_loop, done) (omega arith)
      | inl more ↦ elim (result-cases range) [
        | inl (e, failed) ↦ rw (parse_loop, more, failed) (subst (Reads off) failed reads)
        | inr (start, count, next, read) ↦
            let on : off < next = subst (Reads off) read reads in
            elim (Bool-cases (ltb max_wallet_range_count count)) [
              | inl large ↦ rw (parse_loop, more, read, large) (λ h. cc)
              | inr small ↦ elim (Bool-cases (ltb max_total_wallets (total + (count + 1)))) [
                | inl too_many ↦ rw (parse_loop, more, read, small, too_many) (λ h. cc)
                | inr fits ↦
                    let le = ltb→ge max_total_wallets (total + (count + 1)) fits in
                    rw (parse_loop, more, read, small, fits)
                      (parse_loop-Ends rounds input next (total + (count + 1))
                        (wallets ++ run start count) (omega (arith, on))
                        (omega
                          (arith, length-append wallets (run start count), length-run start count))
                        (omega (arith, le)))
              ]
            ]
      ]
    ]

-- At most 100000 wallets, or an error that the code returns.
abbrev pub IsBounded : Result Metadata → Type 0
IsBounded (ok m) = length m.wallets ≤ max_total_wallets
IsBounded (err e) = e ≢ out_of_rounds

with_wallets-IsBounded :
    (name : Bytes) (r : Result (List ℕ)) → Ends r → IsBounded (with_wallets name r)
unfolding with_wallets
with_wallets-IsBounded name (ok wallets) h = h
with_wallets-IsBounded name (err e) h = h

IsBounded-if :
    (b : Bool) (x y : Result Metadata) → IsBounded x → IsBounded y → IsBounded (if b then x else y)
IsBounded-if true x y hx hy = hx
IsBounded-if false x y hx hy = hy

-- ParseMetadata ends on any input, since the rounds of its loop are always enough, and what it
-- accepts has at most 100000 wallets.
pub parse_metadata-IsBounded : (input : Bytes) → IsBounded (parse_metadata input)
unfolding parse_metadata
parse_metadata-IsBounded [] = λ h. cc
parse_metadata-IsBounded (header ∷ body) =
    let input = header ∷ body in
    let off = 1 + bit_and header 0x1f in
    IsBounded-if (not (header / 32 == 1)) _ _ (λ h. cc)
      (IsBounded-if (ltb (length input) off) _ _ (λ h. cc)
        (with_wallets-IsBounded (slice 1 (bit_and header 0x1f) input) _
          (parse_loop-Ends (length input) input off 0 [] (omega arith) refl (omega arith))))
