-- ===== src/Tests/Types.antt =====
-- The package types on concrete data.
use keycard_go.Base.{◌≡◌, refl, ◌==◌, ◌&&◌, ◌||◌, not, [], ◌∷◌, arith, ℕ, ok}
use keycard_go.Tlv.Length.{encode_ber_length}
use keycard_go.Types.Metadata.{
  Metadata, encode_wallets, encode_ranges, ranges_loop, sort_insert_pos, search_loop, serialize,
  parse_metadata, add_wallet, remove_wallet,
}
use keycard_go.Types.Metadata.RoundTrip.{parse_metadata-serialize}
use keycard_go.Types.Metadata.Search.{IsAscending}
use keycard_go.Types.Metadata.Wallets.{contains, add_wallet_lem, remove_wallet_lem}

abbrev card : Metadata
card = record { name = 0x41 ∷ 0x42 ∷ []; wallets = 1 ∷ 2 ∷ 3 ∷ 300 ∷ [] }

serialized : serialize card ≡ 0x22 ∷ 0x41 ∷ 0x42 ∷ 1 ∷ 2 ∷ 0x82 ∷ 1 ∷ 44 ∷ 0 ∷ []
unfolding serialize encode_wallets encode_ranges ranges_loop encode_ber_length
serialized = refl

inserted : (add_wallet 5 card).wallets ≡ 1 ∷ 2 ∷ 3 ∷ 5 ∷ 300 ∷ []
unfolding add_wallet sort_insert_pos search_loop
inserted = refl

parse_metadata-serialize_example : parse_metadata (serialize card) ≡ ok card
parse_metadata-serialize_example =
    parse_metadata-serialize card (omega arith)
      (omega arith, (omega arith, (omega arith, (omega arith, tt)))) (omega arith)

card-IsAscending : IsAscending card.wallets
card-IsAscending = (
  (omega arith, (omega arith, (omega arith, tt))),
  ((omega arith, (omega arith, tt)), ((omega arith, tt), (tt, tt))),
)

add_wallet_lem_example :
    IsAscending (add_wallet 5 card).wallets
    × ((x : ℕ) → contains x (add_wallet 5 card).wallets ≡ (x == 5 || contains x card.wallets))
add_wallet_lem_example = add_wallet_lem 5 card card-IsAscending

remove_wallet_lem_example :
    IsAscending (remove_wallet 3 card).wallets
    × ((x : ℕ)
        → contains x (remove_wallet 3 card).wallets ≡ (not (x == 3) && contains x card.wallets))
remove_wallet_lem_example = remove_wallet_lem 3 card card-IsAscending
