-- ===== src/Apdu/Response/Checks.antt =====
-- Parsing of a response, and what the checks of its status word accept.
use keycard_go.Base.{
  ℕ, ◌+◌, ◌*◌, ◌-◌, ◌≡◌, ◌↔◌, ◌⊎◌, inl, inr, Bool-cases, if◌then◌else◌, ap, refl, true, List, [],
  ◌∷◌, ◌++◌, arith, length, drop, take-append, drop-append, length-append, drop-head, drop-tail,
  Result, ok, err, bad_response, unexpected_response,
}
use mathlib.Core.Path.{subst}
use keycard_go.Base.Bytes.{Bytes, IsByte, uint16, shift_in}
use keycard_go.Apdu.Response.{Response, sw_ok, parse_response, one_of, allowed, check_ok}

-- A response of at least two bytes is split into its data and the status word that its last two
-- bytes make, big end first.
pub parse_response-append :
    (payload : Bytes) (sw1 sw2 : ℕ)
    → IsByte sw1
    → IsByte sw2
    → parse_response (payload ++ sw1 ∷ sw2 ∷ [])
      ≡ ok (record { payload = payload; sw1 = sw1; sw2 = sw2; sw = sw1 * 256 + sw2 })
unfolding parse_response
parse_response-append payload sw1 sw2 h1 h2 =
    let raw = payload ++ sw1 ∷ sw2 ∷ [] in
    let seen : drop (length payload) raw ≡ sw1 ∷ sw2 ∷ [] = drop-append payload (sw1 ∷ sw2 ∷ []) in
    let size : length raw - 2 ≡ length payload =
      omega (arith, length-append payload (sw1 ∷ sw2 ∷ [])) in
    let shifted : uint16 (sw1 * 256) ≡ sw1 * 256 = omega arith in
    rw size (
      ground (
        arith,
        length-append payload (sw1 ∷ sw2 ∷ []),
        take-append payload (sw1 ∷ sw2 ∷ []),
        drop-head raw (length payload) 0 seen,
        drop-head raw (length payload + 1) 0 (drop-tail raw (length payload) seen),
        shifted,
        shift_in sw1 sw2 h2,
      ))

abbrev pub Contains : List ℕ → ℕ → Type 0
Contains [] sw = ⊥
Contains (code ∷ codes) sw = (sw ≡ code) ⊎ Contains codes sw

one_of_iff : (codes : List ℕ) (sw : ℕ) → (one_of codes sw ≡ true) ↔ Contains codes sw
unfolding one_of
one_of_iff [] sw = ((λ h. cc), (λ h. absurd h))
one_of_iff (code ∷ codes) sw = let (f, g) = one_of_iff codes sw in ground (arith, f, g)

pass_iff :
    (codes : List ℕ) (x r : Response)
    → ((if one_of codes x.sw then ok x else err (bad_response x.sw unexpected_response)) ≡ ok r)
      ↔ ((x ≡ r) × Contains codes r.sw)
pass_iff codes x r = elim (Bool-cases (one_of codes x.sw)) [
  | inl e ↦
      let found = (one_of_iff codes x.sw).0 e in
      rw e (
        (λ h. let same : x ≡ r = cc in (same, subst (λ y. Contains codes y.sw) same found)),
        λ h. cc h.0,
      )
  | inr e ↦ rw e ((λ h. cc), λ h. cc (e, (one_of_iff codes r.sw).1 h.1, h.0))
]

-- CheckOK lets a response through exactly when there was no error and its status word is one of the
-- allowed codes, or 0x9000 where no code is given.
pub check_ok_iff :
    (x : Result Response) (codes : List ℕ) (r : Response)
    → (check_ok x codes ≡ ok r)
      ↔ ((x ≡ ok r) × (((codes ≡ []) × (r.sw ≡ 0x9000)) ⊎ Contains codes r.sw))
unfolding check_ok
check_ok_iff (err e) codes r = ((λ h. cc), (λ h. cc h.0))
check_ok_iff (ok x) [] r =
    let (f, g) = pass_iff (sw_ok ∷ []) x r in
    (
      (λ h. let p = f h in (ap ok p.0, inl (refl, elim p.1 [ inl e ↦ e | inr b ↦ absurd b ]))),
      λ h. g (cc h.0, elim h.1 [ inl e ↦ inl e.1 | inr b ↦ absurd b ]),
    )
check_ok_iff (ok x) (code ∷ codes) r =
    let (f, g) = pass_iff (code ∷ codes) x r in
    (
      (λ h. let p = f h in (ap ok p.0, inr p.1)),
      λ h. g (cc h.0, elim h.1 [ inl e ↦ absurd (cc e.0) | inr b ↦ b ]),
    )

-- The status word 9000 passes where no other is asked for.
pub check_ok_lem : (r : Response) → r.sw ≡ sw_ok → check_ok (ok r) [] ≡ ok r
unfolding check_ok
check_ok_lem r status = rw (check_ok, one_of, allowed, status) refl
