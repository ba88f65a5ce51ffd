-- ===== src/Tests/Ciphers.antt =====
-- A cipher that meets the laws: the identity on blocks, and a key stream that depends on the key, the
-- counter block and the place.
use keycard_go.Base.{◌+◌, ◌*◌, ◌%◌, refl, true, get_or}
use keycard_go.Crypto.Aes.{Aes, AesLaws}

abbrev pub toy_aes : Aes
toy_aes = record {
  accepts = λ key. true;
  encrypt_block = λ key block. block;
  key_stream = λ key counter i. (get_or key 0 0 + get_or counter 13 0 + i * 7) % 256;
  cbc_encrypt = λ key iv plain. plain;
  cbc_decrypt = λ key iv plain. plain;
}

pub toy_laws : AesLaws toy_aes
toy_laws = record {
  length-encrypt_block = λ key block h. h;
  length-cbc_encrypt = λ key iv plain. refl;
  cbc_decrypt-cbc_encrypt = λ key iv plain h. refl;
}
