-- ===== src/Types/Metadata/Search.antt =====
-- The binary search of sortInsertPos and sortSearchPos, against a search from the front.
use keycard_go.Base.{
  ℕ, zero, suc, ◌+◌, ◌<◌, ◌≤◌, ◌/◌, ◌≡◌, inl, inr, false, List, [], ◌∷◌, arith, ltb, ltb→lt, ltb→ge,
  ge→ltb, if◌then◌else◌, Bool-cases, length, get_or, All,
}
use keycard_go.Types.Metadata.{search_loop, sort_insert_pos}

-- Every wallet is below those that follow it.
abbrev pub IsAscending : List ℕ → Type 0
IsAscending [] = Unit
IsAscending (w ∷ wallets) = All (λ x. w < x) wallets × IsAscending wallets

-- The number of wallets below `id`, counted from the front up to the first that is not.
unfoldable pub rank : ℕ → List ℕ → ℕ
rank id [] = 0
rank id (w ∷ wallets) = let r = rank id wallets in if ltb w id then suc r else 0

rank-le_length : (id : ℕ) (wallets : List ℕ) → rank id wallets ≤ length wallets
unfolding rank
rank-le_length id [] = omega arith
rank-le_length id (w ∷ wallets) = ground (arith, rank-le_length id wallets)

All-above :
    (id w : ℕ) (wallets : List ℕ) (i : ℕ)
    → All (λ x. w < x) wallets
    → id ≤ w
    → i < length wallets
    → ltb (get_or wallets i 0) id ≡ false
All-above id w (x ∷ wallets) zero (h, hs) le lt = ge→ltb x id (omega arith)
All-above id w (x ∷ wallets) (suc i) (h, hs) le lt = All-above id w wallets i hs le (omega arith)
All-above id w [] i h le lt = absurd (omega arith)

-- On ascending wallets, the test of a round says on which side of the rank `i` lies.
test_lem :
    (id : ℕ) (wallets : List ℕ) (i : ℕ)
    → IsAscending wallets
    → i < length wallets
    → ltb (get_or wallets i 0) id ≡ ltb i (rank id wallets)
unfolding rank
test_lem id (w ∷ wallets) zero (h, asc) lt = ground arith
test_lem id (w ∷ wallets) (suc i) (h, asc) lt = elim (Bool-cases (ltb w id)) [
  | inl below ↦ rw (below, test_lem id wallets i asc (omega arith)) (ground arith)
  | inr above ↦
      rw (above, All-above id w wallets i h (ltb→ge w id above) (omega arith)) (ground arith)
]
test_lem id [] i asc lt = absurd (omega arith)

search_loop_lem :
    (rounds : ℕ) (wallets : List ℕ) (id low high : ℕ)
    → IsAscending wallets
    → high ≤ low + rounds
    → low ≤ rank id wallets
    → rank id wallets ≤ high
    → high ≤ length wallets
    → search_loop rounds wallets id low high ≡ rank id wallets
unfolding search_loop
search_loop_lem zero wallets id low high asc enough lo hi len = omega arith
search_loop_lem (suc rounds) wallets id low high asc enough lo hi len =
    let r = rank id wallets in
    let mid = (low + high) / 2 in
    elim (Bool-cases (ltb low high)) [
      | inr done ↦ rw (search_loop, done) (omega (arith, ltb→ge low high done))
      | inl nonempty ↦
          let lt = ltb→lt low high nonempty in
          let test : ltb (get_or wallets mid 0) id ≡ ltb mid r =
            test_lem id wallets mid asc (omega arith) in
          elim (Bool-cases (ltb mid r)) [
            | inl right ↦
                let e : mid < r = ltb→lt mid r right in
                rw (search_loop, nonempty, test, right)
                  (search_loop_lem rounds wallets id (mid + 1) high asc (omega arith)
                    (omega (arith, e)) hi len)
            | inr left ↦
                let e : r ≤ mid = ltb→ge mid r left in
                rw (search_loop, nonempty, test, left)
                  (search_loop_lem rounds wallets id low mid asc (omega arith) lo e (omega arith))
          ]
    ]

-- The binary search returns the number of wallets below `id`, for ascending wallets.
pub sort_insert_pos-rank :
    (wallets : List ℕ) (id : ℕ) → IsAscending wallets → sort_insert_pos wallets id ≡ rank id wallets
unfolding sort_insert_pos
sort_insert_pos-rank wallets id asc =
    search_loop_lem (length wallets) wallets id 0 (length wallets) asc (omega arith) (omega arith)
      (rank-le_length id wallets) (omega arith)
