-- ===== src/Crypto/Curve.antt =====
-- What the packages use of the libraries for SHA-256, HKDF and secp256k1 (go-ethereum and dcrd). A
-- public key of a library is its uncompressed form, a private key its bytes.
use keycard_go.Base.{ℕ, Bool, Result}
use keycard_go.Base.Bytes.{Bytes}

pub record Curve : Type 0 where
  pub sha256 : Bytes → Bytes
  -- hkdf.New(sha256.New, ikm, salt, info) read for a length: info, salt, ikm, length
  pub hkdf : Bytes → Bytes → Bytes → ℕ → Result Bytes
  -- the public key of a private key
  pub public_of : Bytes → Bytes
  -- the x coordinate of a private key times a public key, in 32 bytes
  pub shared_x : Bytes → Bytes → Bytes
  -- ethcrypto.UnmarshalPubkey, DecompressPubkey (or secp256k1.ParsePubKey of a compressed key),
  -- CompressPubkey and Ecrecover
  pub unmarshal : Bytes → Result Bytes
  pub decompress : Bytes → Result Bytes
  pub compress : Bytes → Bytes
  pub ecrecover : Bytes → Bytes → Result Bytes
  -- ecdsa.RecoverCompact of a compact signature and a hash
  pub recover_compact : Bytes → Bytes → Result Bytes
  -- ecdsa.ParseDERSignature: r and s, 32 bytes each
  pub parse_der : Bytes → Result (Bytes × Bytes)
  -- Verify of a signature with r and s: hash, public key
  pub verify : Bytes → Bytes → Bytes → Bytes → Bool
