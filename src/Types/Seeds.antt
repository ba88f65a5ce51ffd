-- ===== src/Types/Seeds.antt =====
-- Keys from seeds: Bip32KeyPairFromBinarySeed of types/bip32.go, the seeds of types/mnemonic.go and the
-- address of types/ethereum.go. HMAC-SHA512 under "Bitcoin seed", PBKDF2 of a phrase and a salt, the
-- public key of a private key and Keccak-256 are functions.
use keycard_go.Base.{[], ◌∷◌, ◌++◌, ltb, if◌then◌else◌, length, take, drop, replicate, none, some}
use keycard_go.Base.Bytes.{Bytes, copy_into}
use keycard_go.Types.Keys.{Bip32KeyPair, new_bip32_key_pair}
use keycard_go.Types.Mnemonic.{Mnemonic, to_phrase}

-- "mnemonic"
abbrev pub salt_prefix : Bytes
salt_prefix = 0x6d ∷ 0x6e ∷ 0x65 ∷ 0x6d ∷ 0x6f ∷ 0x6e ∷ 0x69 ∷ 0x63 ∷ []

-- Of a hash of 64 bytes.
unfoldable pub bip32_key_pair_from_binary_seed :
    (Bytes → Bytes) → (Bytes → Bytes) → Bytes → Bip32KeyPair
bip32_key_pair_from_binary_seed compressed_key hmac seed =
    let hash = hmac seed in
    new_bip32_key_pair compressed_key (some (copy_into 32 (take 32 hash)))
      (some (copy_into 32 (drop 32 hash))) none

-- The private key and the chain code are dropped; the model does not overwrite them.
unfoldable pub zeroize_key_pair : Bip32KeyPair → Bip32KeyPair
zeroize_key_pair key_pair = record key_pair { private_key = none; chain_code = none }

module _ (pbkdf2 : Bytes → Bytes → Bytes) where
  unfoldable pub binary_seed_from_phrase : Bytes → Bytes → Bytes
  binary_seed_from_phrase phrase password = pbkdf2 phrase (salt_prefix ++ password)

  -- The method keeps the words that it looks up.
  unfoldable pub to_seed : Bytes → Mnemonic → Bytes × Mnemonic
  to_seed passphrase m =
      let (phrase, m') = to_phrase m in (pbkdf2 phrase (salt_prefix ++ passphrase), m')

  unfoldable pub to_binary_seed : Mnemonic → Bytes × Mnemonic
  to_binary_seed m = to_seed [] m

  module _ (compressed_key hmac : Bytes → Bytes) where
    unfoldable pub to_bip32_key_pair_with_password : Bytes → Mnemonic → Bip32KeyPair × Mnemonic
    to_bip32_key_pair_with_password password m =
        let (seed, m') = to_seed password m in
        (bip32_key_pair_from_binary_seed compressed_key hmac seed, m')

    unfoldable pub to_bip32_key_pair : Mnemonic → Bip32KeyPair × Mnemonic
    to_bip32_key_pair m =
        let (seed, m') = to_binary_seed m in
        (bip32_key_pair_from_binary_seed compressed_key hmac seed, m')

unfoldable pub to_ethereum_address : (Bytes → Bytes) → Bytes → Bytes
to_ethereum_address keccak public_key =
    if ltb (length public_key) 2
    then replicate 20 0
    else copy_into 20 (drop 12 (keccak (drop 1 public_key)))
