-- ===== src/Commands/Requests.antt =====
-- What a card can read back from the commands: the request itself.
use keycard_go.Base.{
  ℕ, ◌+◌, ◌*◌, ◌/◌, ◌%◌, ◌<◌, ◌≡◌, refl, Bool, true, false, arith, ◌==◌, if◌then◌else◌, length,
  take, drop, Option, none, some, take-append_eq, drop-append_eq,
}
use keycard_go.Base.Bytes.{Bytes}
use keycard_go.Apdu.Command.{Command}
use keycard_go.Commands.{
  new_command_init, new_command_pair_first_step, new_command_pair_final_step, new_command_unpair,
  new_command_identify, new_command_open_secure_channel, new_command_mutually_authenticate,
  new_command_get_status, new_command_generate_key, new_command_generate_mnemonic,
  new_command_remove_key, new_command_verify_pin, new_command_change_pin, new_command_unblock_pin,
  new_command_change_puk, new_command_change_pairing_secret, new_command_load_seed,
  new_command_load_lee_key, new_command_load_key_bip32, new_command_export_lee,
  new_command_export_bip85, new_command_get_data, new_command_store_data,
  new_command_store_data_with_offset, new_command_get_challenge, new_command_factory_reset,
}
use keycard_go.Constants.Instructions.{
  ins_change_pin, ins_export_bip85, ins_export_lee, ins_factory_reset, ins_generate_key,
  ins_generate_mnemonic, ins_get_challenge, ins_get_data, ins_get_status, ins_identify, ins_init,
  ins_load_key, ins_mutually_authenticate, ins_open_secure_channel, ins_pair, ins_remove_key,
  ins_store_data, ins_unblock_pin, ins_unpair, ins_verify_pin,
}
use keycard_go.Constants.Parameters.{
  p1_change_pin_pairing_secret, p1_change_pin_pin, p1_change_pin_puk, p1_load_key_ec,
  p1_load_key_ec_extended, p1_load_key_lee, p1_load_key_seed, p1_pairing_final_step,
  p1_pairing_first_step,
}

pub data Request : Type 0 where
  init : Bytes → Request
  pair_first_step : Bytes → Request
  pair_final_step : Bytes → Request
  unpair : ℕ → Request
  identify : Bytes → Request
  open_secure_channel : ℕ → Bytes → Request
  mutually_authenticate : Bytes → Request
  get_status : ℕ → Request
  generate_key : Request
  generate_mnemonic : ℕ → Request
  remove_key : Request
  verify_pin : Bytes → Request
  change_pin : Bytes → Request
  unblock_pin : Bytes → Bytes → Request
  change_puk : Bytes → Request
  change_pairing_secret : Bytes → Request
  load_seed : Bytes → Request
  load_lee_key : Bytes → Request
  load_key_bip32 : Bool → Bytes → Request
  export_lee : ℕ → Bytes → Request
  export_bip85 : ℕ → Bytes → Request
  get_data : ℕ → Request
  store_data : ℕ → Bytes → Request
  store_data_with_offset : ℕ → Bytes → ℕ → Request
  get_challenge : ℕ → Request
  factory_reset : Request

unfoldable pub command : Request → Command
command (init payload) = new_command_init payload
command (pair_first_step challenge) = new_command_pair_first_step challenge
command (pair_final_step cryptogram_hash) = new_command_pair_final_step cryptogram_hash
command (unpair index) = new_command_unpair index
command (identify challenge) = new_command_identify challenge
command (open_secure_channel pairing_index pub_key) =
    new_command_open_secure_channel pairing_index pub_key
command (mutually_authenticate payload) = new_command_mutually_authenticate payload
command (get_status p1) = new_command_get_status p1
command generate_key = new_command_generate_key
command (generate_mnemonic checksum_size) = new_command_generate_mnemonic checksum_size
command remove_key = new_command_remove_key
command (verify_pin pin) = new_command_verify_pin pin
command (change_pin pin) = new_command_change_pin pin
command (unblock_pin puk new_pin) = new_command_unblock_pin puk new_pin
command (change_puk puk) = new_command_change_puk puk
command (change_pairing_secret secret) = new_command_change_pairing_secret secret
command (load_seed seed) = new_command_load_seed seed
command (load_lee_key seed) = new_command_load_lee_key seed
command (load_key_bip32 include_public key_tlv) = new_command_load_key_bip32 include_public key_tlv
command (export_lee source path) = new_command_export_lee source path
command (export_bip85 length path) = new_command_export_bip85 length path
command (get_data typ) = new_command_get_data typ
command (store_data typ payload) = new_command_store_data typ payload
command (store_data_with_offset typ payload offset) =
    new_command_store_data_with_offset typ payload offset
command (get_challenge length) = new_command_get_challenge length
command factory_reset = new_command_factory_reset

-- A PUK has 12 digits; an offset is a multiple of 4 below 1024.
abbrev pub IsRequest : Request → Type 0
IsRequest (unblock_pin puk new_pin) = length puk ≡ 12
IsRequest (store_data_with_offset typ payload offset) = (offset < 1024) × (offset % 4 ≡ 0)
IsRequest request = Unit

-- What a request asks for: StoreData is StoreDataWithOffset at 0.
unfoldable pub meant : Request → Request
meant (store_data typ payload) = store_data_with_offset typ payload 0
meant request = request

pair_request : Command → Option Request
pair_request c =
    if c.p1 == p1_pairing_first_step
    then some (pair_first_step c.payload)
    else if c.p1 == p1_pairing_final_step
    then some (pair_final_step c.payload)
    else none

change_request : Command → Option Request
change_request c =
    if c.p1 == p1_change_pin_pin
    then some (change_pin c.payload)
    else if c.p1 == p1_change_pin_puk
    then some (change_puk c.payload)
    else if c.p1 == p1_change_pin_pairing_secret
    then some (change_pairing_secret c.payload)
    else none

load_request : Command → Option Request
load_request c =
    if c.p1 == p1_load_key_ec
    then some (load_key_bip32 false c.payload)
    else if c.p1 == p1_load_key_ec_extended
    then some (load_key_bip32 true c.payload)
    else if c.p1 == p1_load_key_seed
    then some (load_seed c.payload)
    else if c.p1 == p1_load_key_lee
    then some (load_lee_key c.payload)
    else none

-- The request of a command, by its instruction and then its P1.
pub read_request : Command → Option Request
unfolding pair_request change_request load_request
read_request c =
    if c.ins == ins_pair
    then pair_request c
    else if c.ins == ins_change_pin
    then change_request c
    else if c.ins == ins_load_key
    then load_request c
    else if c.ins == ins_init
    then some (init c.payload)
    else if c.ins == ins_unpair
    then some (unpair c.p1)
    else if c.ins == ins_identify
    then some (identify c.payload)
    else if c.ins == ins_open_secure_channel
    then some (open_secure_channel c.p1 c.payload)
    else if c.ins == ins_mutually_authenticate
    then some (mutually_authenticate c.payload)
    else if c.ins == ins_get_status
    then some (get_status c.p1)
    else if c.ins == ins_generate_key
    then some (generate_key)
    else if c.ins == ins_generate_mnemonic
    then some (generate_mnemonic c.p1)
    else if c.ins == ins_remove_key
    then some (remove_key)
    else if c.ins == ins_verify_pin
    then some (verify_pin c.payload)
    else if c.ins == ins_unblock_pin
    then some (unblock_pin (take 12 c.payload) (drop 12 c.payload))
    else if c.ins == ins_export_lee
    then some (export_lee c.p1 c.payload)
    else if c.ins == ins_export_bip85
    then some (export_bip85 c.p1 c.payload)
    else if c.ins == ins_get_data
    then some (get_data c.p1)
    else if c.ins == ins_store_data
    then some (store_data_with_offset c.p1 c.payload (4 * c.p2))
    else if c.ins == ins_get_challenge
    then some (get_challenge c.p1)
    else if c.ins == ins_factory_reset
    then some (factory_reset)
    else none

-- A command of a builder that takes no path tells which request was made, with all its arguments,
-- where StoreData counts as StoreDataWithOffset at 0: of those builders only the two that store data
-- can give one command for two requests. For a PUK of 12 digits and an offset that is a multiple of 4
-- below 1024.
pub read_request-command :
    (request : Request) → IsRequest request → read_request (command request) ≡ some (meant request)
unfolding read_request command meant new_command_init new_command_pair_first_step
    new_command_pair_final_step new_command_unpair new_command_identify
    new_command_open_secure_channel new_command_mutually_authenticate new_command_get_status
    new_command_generate_key new_command_generate_mnemonic new_command_remove_key
    new_command_verify_pin new_command_change_pin new_command_unblock_pin new_command_change_puk
    new_command_change_pairing_secret new_command_load_seed new_command_load_lee_key
    new_command_load_key_bip32 new_command_export_lee new_command_export_bip85 new_command_get_data
    new_command_store_data new_command_store_data_with_offset new_command_get_challenge
    new_command_factory_reset
read_request-command (init payload) h = refl
read_request-command (pair_first_step challenge) h = refl
read_request-command (pair_final_step cryptogram_hash) h = refl
read_request-command (unpair index) h = refl
read_request-command (identify challenge) h = refl
read_request-command (open_secure_channel pairing_index pub_key) h = refl
read_request-command (mutually_authenticate payload) h = refl
read_request-command (get_status p1) h = refl
read_request-command generate_key h = refl
read_request-command (generate_mnemonic checksum_size) h = refl
read_request-command remove_key h = refl
read_request-command (verify_pin pin) h = refl
read_request-command (change_pin pin) h = refl
read_request-command (unblock_pin puk new_pin) h =
    rw (take-append_eq 12 puk new_pin h, drop-append_eq 12 puk new_pin h) refl
read_request-command (change_puk puk) h = refl
read_request-command (change_pairing_secret secret) h = refl
read_request-command (load_seed seed) h = refl
read_request-command (load_lee_key seed) h = refl
read_request-command (load_key_bip32 true key_tlv) h = refl
read_request-command (load_key_bip32 false key_tlv) h = refl
read_request-command (export_lee source path) h = refl
read_request-command (export_bip85 length path) h = refl
read_request-command (get_data typ) h = refl
read_request-command (store_data typ payload) h = refl
read_request-command (store_data_with_offset typ payload offset) h =
    let e : 4 * (offset / 4 % 256) ≡ offset = omega (arith, h.0, h.1) in rw e refl
read_request-command (get_challenge length) h = refl
read_request-command factory_reset h = refl

-- Offsets 1024 apart give the same command, so data stored at the one overwrites the other's.
pub offsets_repeat :
    (typ : ℕ) (payload : Bytes) (offset : ℕ)
    → new_command_store_data_with_offset typ payload (offset + 1024)
      ≡ new_command_store_data_with_offset typ payload offset
unfolding new_command_store_data_with_offset
offsets_repeat typ payload offset =
    let e : (offset + 1024) / 4 % 256 ≡ offset / 4 % 256 = omega arith in rw e refl
