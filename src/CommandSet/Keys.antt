-- ===== src/CommandSet/Keys.antt =====
-- command_set.go: the calls that make, load, derive, export and remove keys.
use keycard_go.Base.{
  ℕ, Bool, true, false, not, ◌||◌, [], ◌++◌, ◌==◌, if◌then◌else◌, length, get_or, bit_or, Option,
  path, not_absolute, command_error, bad_peer_key, not_master_path,
}
use keycard_go.Base.Bytes.{Bytes}
use keycard_go.Base.Exec.{pure, raise, lift, ◌>>=◌}
use keycard_go.Constants.Instructions.{
  ins_generate_key, ins_remove_key, ins_derive_key, ins_load_key, ins_export_key, ins_export_lee,
  ins_export_bip85, ins_ecdh, ins_set_pinless_path,
}
use keycard_go.Constants.Parameters.{
  p1_load_key_seed, p1_load_key_ec, p1_load_key_ec_extended, p1_load_key_lee, p1_export_key_current,
  p1_export_key_derive, p1_export_key_derive_and_make_current, p2_export_key_private_and_public,
  p2_export_key_public_only, p1_sign_derive, p2_ecdh_raw_secret, uncompressed_point_tag,
  secp256k1_uncompressed_pub_key_size,
}
use keycard_go.CommandSet.{Outside, Call, done, fetched}
use keycard_go.DerivationPath.KeyPath.{KeyPath, key_path_from_string, source_master}
use keycard_go.Types.Keys.{
  Bip32KeyPair, to_tlv, is_extended, ExportedKey, parse_export_key_response, LeeKey, parse_lee_key,
}

module _ {W : Type 0} (out : Outside W) where
  unfoldable pub generate_key : Call out Bytes
  generate_key = fetched out ins_generate_key 0 0 []

  unfoldable pub remove_key : Call out (Unit {0})
  remove_key = done out ins_remove_key 0 0 []

  key_path : Bytes → Call out KeyPath
  key_path path_text = lift (key_path_from_string out.trim_space path_text)

  unfoldable pub derive_key : Bytes → Call out (Unit {0})
  unfolding key_path
  derive_key path_text = do kp ← key_path path_text; done out ins_derive_key kp.source 0 kp.raw

  unfoldable pub load_seed : Bytes → Call out Bytes
  load_seed seed = fetched out ins_load_key p1_load_key_seed 0 seed

  load_key_bip32_inner : Bip32KeyPair → Bool → Call out (Unit {0})
  load_key_bip32_inner key_pair omit_public =
      done out ins_load_key
        (if is_extended key_pair then p1_load_key_ec_extended else p1_load_key_ec) 0
        (to_tlv (not omit_public) key_pair)

  unfoldable pub load_key_bip32 : Bip32KeyPair → Call out (Unit {0})
  unfolding load_key_bip32_inner
  load_key_bip32 key_pair = load_key_bip32_inner key_pair false

  unfoldable pub load_key_bip32_omit_public : Bip32KeyPair → Call out (Unit {0})
  unfolding load_key_bip32_inner
  load_key_bip32_omit_public key_pair = load_key_bip32_inner key_pair true

  unfoldable pub load_lee_key : Bytes → Call out (Unit {0})
  load_lee_key seed = done out ins_load_key p1_load_key_lee 0 seed

  unfoldable pub export_key_with_p2 : Bool → Bool → ℕ → Bytes → Call out ExportedKey
  unfolding key_path
  export_key_with_p2 derive make_current p2 path_text = do
    kp ← key_path path_text
    payload ←
        fetched out ins_export_key
          (if derive
            then bit_or kp.source (
                if make_current
                then p1_export_key_derive_and_make_current
                else p1_export_key_derive)
            else kp.source)
          p2 kp.raw
    lift (parse_export_key_response out.public_key_of payload)

  abbrev pub export_key_extended : Bool → Bool → ℕ → Bytes → Call out ExportedKey
  export_key_extended derive make_current p2 path_text =
      export_key_with_p2 derive make_current p2 path_text

  -- The private and the public key.
  unfoldable pub export_key : Bool → Bool → Bool → Bytes → Call out (Option Bytes × Option Bytes)
  export_key derive make_current only_public path_text = do
    key ←
        export_key_extended derive make_current
          (if only_public then p2_export_key_public_only else p2_export_key_private_and_public)
          path_text
    pure (key.priv_key, key.pub_key)

  unfoldable pub export_current_key : Bool → Call out ExportedKey
  export_current_key public_only = do
    payload ←
        fetched out ins_export_key p1_export_key_current
          (if public_only then p2_export_key_public_only else p2_export_key_private_and_public) []
    lift (parse_export_key_response out.public_key_of payload)

  unfoldable pub export_lee_key : Bytes → Call out Bytes
  unfolding key_path
  export_lee_key path_text = do
    kp ← key_path path_text
    fetched out ins_export_lee kp.source 0 kp.raw

  unfoldable pub export_lee_key_parsed : Bytes → Call out LeeKey
  export_lee_key_parsed path_text = do
    payload ← export_lee_key path_text
    lift (parse_lee_key payload)

  unfoldable pub export_bip85 : Bytes → ℕ → Call out Bytes
  unfolding key_path
  export_bip85 path_text length = do
    kp ← key_path path_text
    fetched out ins_export_bip85 length 0 kp.raw

  unfoldable pub ecdh_raw : Bytes → Bytes → Call out Bytes
  ecdh_raw peer_public_key path_bytes =
      if not (length peer_public_key == secp256k1_uncompressed_pub_key_size)
        || not (get_or peer_public_key 0 0 == uncompressed_point_tag)
      then raise (command_error bad_peer_key)
      else fetched out ins_ecdh p1_sign_derive p2_ecdh_raw_secret (peer_public_key ++ path_bytes)

  unfoldable pub ecdh : Bytes → Bytes → Call out Bytes
  unfolding key_path
  ecdh peer_public_key path_text = do
    kp ← key_path path_text
    (if not (kp.source == source_master)
        then raise (command_error not_master_path)
        else ecdh_raw peer_public_key kp.raw)

  unfoldable pub set_pinless_path : Bytes → Call out (Unit {0})
  unfolding key_path
  set_pinless_path path_text = do
    kp ← key_path path_text
    (if not (kp.source == source_master)
        then raise (path not_absolute)
        else done out ins_set_pinless_path 0 0 kp.raw)

  unfoldable pub reset_pinless_path : Call out (Unit {0})
  reset_pinless_path = done out ins_set_pinless_path 0 0 []
