-- ===== src/Types/Metadata/Wallets.antt =====
-- The set of wallets that AddWallet and RemoveWallet keep.
use keycard_go.Base.{
  ℕ, suc, ◌+◌, ◌<◌, ◌≤◌, ◌≡◌, refl, ap, ◌∙◌, inl, inr, Bool, true, false, not, ◌&&◌, ◌||◌, List, [],
  ◌∷◌, ◌++◌, arith, ltb, ltb→lt, lt→ltb, ◌==◌, if◌then◌else◌, Bool-cases, length, take, drop,
  get_or, All,
}
use keycard_go.Types.Metadata.{Metadata, add_wallet, remove_wallet}
use keycard_go.Types.Metadata.Search.{IsAscending, rank, sort_insert_pos-rank}

abbrev pub contains : ℕ → List ℕ → Bool
contains x [] = false
contains x (w ∷ wallets) = x == w || contains x wallets

-- The same change, one wallet after the other.
insert : ℕ → List ℕ → List ℕ
insert id [] = id ∷ []
insert id (w ∷ wallets) =
    let rest = insert id wallets in
    if ltb w id then w ∷ rest else if w == id then w ∷ wallets else id ∷ w ∷ wallets

delete : ℕ → List ℕ → List ℕ
delete id [] = []
delete id (w ∷ wallets) =
    let rest = delete id wallets in
    if ltb w id then w ∷ rest else if w == id then wallets else w ∷ wallets

found : ℕ → List ℕ → Bool
found id wallets =
    ltb (rank id wallets) (length wallets) && get_or wallets (rank id wallets) 0 == id

found_later :
    (id w : ℕ) (wallets : List ℕ) → ltb w id ≡ true → found id (w ∷ wallets) ≡ found id wallets
unfolding found rank
found_later id w wallets h =
    rw h (ap (λ b. b && get_or wallets (rank id wallets) 0 == id) (ground arith))

found_here : (id w : ℕ) (wallets : List ℕ) → ltb w id ≡ false → found id (w ∷ wallets) ≡ (w == id)
unfolding found rank
found_here id w wallets h =
    rw h (ap (λ b. b && w == id) (lt→ltb 0 (suc (length wallets)) (omega arith)))

if_cons :
    (b : Bool) (w : ℕ) (xs ys : List ℕ)
    → (if b then w ∷ xs else w ∷ ys) ≡ w ∷ (if b then xs else ys)
if_cons true w xs ys = refl
if_cons false w xs ys = refl

insert_lem :
    (id : ℕ) (wallets : List ℕ)
    → (if found id wallets
        then wallets
        else take (rank id wallets) wallets ++ id ∷ drop (rank id wallets) wallets)
      ≡ insert id wallets
unfolding insert rank
insert_lem id [] = unfold found in refl
insert_lem id (w ∷ wallets) = elim (Bool-cases (ltb w id)) [
  | inl below ↦
      let r = rank id wallets in
      rw (found_later id w wallets below, below)
        (if_cons (found id wallets) w wallets (take r wallets ++ id ∷ drop r wallets)
          ∙ ap (λ (ws : List ℕ). w ∷ ws) (insert_lem id wallets))
  | inr above ↦ rw (found_here id w wallets above, above) refl
]

delete_lem :
    (id : ℕ) (wallets : List ℕ)
    → (if found id wallets
        then take (rank id wallets) wallets ++ drop (rank id wallets + 1) wallets
        else wallets)
      ≡ delete id wallets
unfolding delete rank
delete_lem id [] = unfold found in refl
delete_lem id (w ∷ wallets) = elim (Bool-cases (ltb w id)) [
  | inl below ↦
      let r = rank id wallets in
      let e : suc r + 1 ≡ suc (r + 1) = omega arith in
      rw (found_later id w wallets below, below, e)
        (if_cons (found id wallets) w (take r wallets ++ drop (r + 1) wallets) wallets
          ∙ ap (λ (ws : List ℕ). w ∷ ws) (delete_lem id wallets))
  | inr above ↦ rw (found_here id w wallets above, above) refl
]

insert-All :
    (P : ℕ → Type 0) (id : ℕ) (wallets : List ℕ) → P id → All P wallets → All P (insert id wallets)
unfolding insert
insert-All P id [] p h = (p, tt)
insert-All P id (w ∷ wallets) p (pw, h) = elim (Bool-cases (ltb w id)) [
  | inl below ↦ rw below (pw, insert-All P id wallets p h)
  | inr above ↦ elim (Bool-cases (w == id)) [
    | inl same ↦ rw (above, same) (pw, h)
    | inr other ↦ rw (above, other) (p, (pw, h))
  ]
]

delete-All :
    (P : ℕ → Type 0) (id : ℕ) (wallets : List ℕ) → All P wallets → All P (delete id wallets)
unfolding delete
delete-All P id [] h = tt
delete-All P id (w ∷ wallets) (pw, h) = elim (Bool-cases (ltb w id)) [
  | inl below ↦ rw below (pw, delete-All P id wallets h)
  | inr above ↦ elim (Bool-cases (w == id)) [
    | inl same ↦ rw (above, same) h
    | inr other ↦ rw (above, other) (pw, h)
  ]
]

above_too :
    (a b : ℕ) (wallets : List ℕ) → a ≤ b → All (λ x. b < x) wallets → All (λ x. a < x) wallets
above_too a b [] le h = tt
above_too a b (w ∷ wallets) le (hw, h) = (omega arith, above_too a b wallets le h)

contains-above :
    (id : ℕ) (wallets : List ℕ) → All (λ x. id < x) wallets → contains id wallets ≡ false
contains-above id [] h = refl
contains-above id (w ∷ wallets) (hw, h) = rw (contains-above id wallets h) (ground arith)

insert-IsAscending :
    (id : ℕ) (wallets : List ℕ) → IsAscending wallets → IsAscending (insert id wallets)
unfolding insert
insert-IsAscending id [] asc = (tt, tt)
insert-IsAscending id (w ∷ wallets) (h, asc) = elim (Bool-cases (ltb w id)) [
  | inl below ↦
      rw below (
        insert-All (λ x. w < x) id wallets (ltb→lt w id below) h,
        insert-IsAscending id wallets asc,
      )
  | inr above ↦ elim (Bool-cases (w == id)) [
    | inl same ↦ rw (above, same) (h, asc)
    | inr other ↦
        let lt : id < w = ground (arith, above, other) in
        rw (above, other) ((lt, above_too id w wallets (omega arith) h), (h, asc))
  ]
]

delete-IsAscending :
    (id : ℕ) (wallets : List ℕ) → IsAscending wallets → IsAscending (delete id wallets)
unfolding delete
delete-IsAscending id [] asc = tt
delete-IsAscending id (w ∷ wallets) (h, asc) = elim (Bool-cases (ltb w id)) [
  | inl below ↦ rw below (delete-All (λ x. w < x) id wallets h, delete-IsAscending id wallets asc)
  | inr above ↦ elim (Bool-cases (w == id)) [
    | inl same ↦ rw (above, same) asc
    | inr other ↦ rw (above, other) (h, asc)
  ]
]

contains-insert :
    (x id : ℕ) (wallets : List ℕ) → contains x (insert id wallets) ≡ (x == id || contains x wallets)
unfolding insert
contains-insert x id [] = refl
contains-insert x id (w ∷ wallets) = elim (Bool-cases (ltb w id)) [
  | inl below ↦ rw (below, contains-insert x id wallets) (ground arith)
  | inr above ↦ elim (Bool-cases (w == id)) [
    | inl same ↦ rw (above, same) (ground (arith, same))
    | inr other ↦ rw (above, other) refl
  ]
]

absent_after :
    (x w : ℕ) (wallets : List ℕ) → All (λ y. w < y) wallets → x ≤ w → contains x wallets ≡ false
absent_after x w wallets h le = contains-above x wallets (above_too x w wallets le h)

contains-delete :
    (x id : ℕ) (wallets : List ℕ)
    → IsAscending wallets
    → contains x (delete id wallets) ≡ (not (x == id) && contains x wallets)
unfolding delete
contains-delete x id [] asc = ground arith
contains-delete x id (w ∷ wallets) (h, asc) = elim (Bool-cases (ltb w id)) [
  | inl below ↦ rw (below, contains-delete x id wallets asc) (ground (arith, below))
  | inr above ↦ elim (Bool-cases (w == id)) [
    | inl same ↦ rw (above, same) (ground (arith, same, absent_after x w wallets h))
    | inr other ↦ rw (above, other) (ground (arith, above, other, absent_after x w wallets h))
  ]
]

wallets_if :
    (b : Bool) (m n : Metadata)
    → (if b then m else n).wallets ≡ (if b then m.wallets else n.wallets)
wallets_if true m n = refl
wallets_if false m n = refl

module _ (id : ℕ) (m : Metadata) (asc : IsAscending m.wallets) where
  add_wallet-insert : (add_wallet id m).wallets ≡ insert id m.wallets
  unfolding add_wallet found
  add_wallet-insert =
      let r = rank id m.wallets in
      rw (sort_insert_pos-rank m.wallets id asc) (
        wallets_if (found id m.wallets) m
          (record m { wallets = take r m.wallets ++ id ∷ drop r m.wallets })
        ∙ insert_lem id m.wallets)

  remove_wallet-delete : (remove_wallet id m).wallets ≡ delete id m.wallets
  unfolding remove_wallet found
  remove_wallet-delete =
      let r = rank id m.wallets in
      rw (sort_insert_pos-rank m.wallets id asc) (
        wallets_if (found id m.wallets)
          (record m { wallets = take r m.wallets ++ drop (r + 1) m.wallets }) m
        ∙ delete_lem id m.wallets)

-- AddWallet keeps the wallets ascending, so without repetition, and adds exactly the wallet asked
-- for, for ascending wallets.
pub add_wallet_lem :
    (id : ℕ) (m : Metadata)
    → IsAscending m.wallets
    → IsAscending (add_wallet id m).wallets
      × ((x : ℕ) → contains x (add_wallet id m).wallets ≡ (x == id || contains x m.wallets))
add_wallet_lem id m asc =
    rw (add_wallet-insert id m asc)
      (insert-IsAscending id m.wallets asc, λ x. contains-insert x id m.wallets)

-- RemoveWallet keeps the wallets ascending and removes exactly the wallet asked for, for ascending
-- wallets.
pub remove_wallet_lem :
    (id : ℕ) (m : Metadata)
    → IsAscending m.wallets
    → IsAscending (remove_wallet id m).wallets
      × ((x : ℕ)
          → contains x (remove_wallet id m).wallets ≡ (not (x == id) && contains x m.wallets))
remove_wallet_lem id m asc =
    rw (remove_wallet-delete id m asc)
      (delete-IsAscending id m.wallets asc, λ x. contains-delete x id m.wallets asc)
