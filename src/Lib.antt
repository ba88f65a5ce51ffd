-- ===== src/Lib.antt =====
-- keycard-go talks to the Status Keycard, a smart card that holds keys. This library models the Go
-- packages that build what is sent to the card and read what it answers, and proves what they promise.
--
-- How the parts interact. A command set (command_set.go) asks for an operation; commands.go says which
-- APDU that is. The secure channel in use encrypts and authenticates the APDU (secure_channel.go for
-- V1: AES-CBC and a CBC-MAC that is also the next IV; secure_channel_v2.go for V2: AES-CCM under a
-- nonce that both ends count). The card's answer is parsed into data and a status word
-- (apdu/response.go), checked, opened by the channel, and the data inside it, mostly BER-TLV
-- (tlv/tlv.go), becomes a value (types/).
--
-- The files and the code:
-- - Base: shared names. Base.Errors has a constructor for each error message. Base.Exec is a state and
--   error monad: methods that change their receiver return a result and the new receiver, also when
--   they fail. Base.Bits has the laws of the bit operations, Base.Bytes the fixed-width
--   conversions, Base.Int the values of int that can be negative.
-- - Tlv: tlv/tlv.go. Tags, BER lengths (encode_ber_length, decode_ber_length), BerTlvReader,
--   BerTlvWriter; each has its laws in a child module.
-- - Apdu: apdu/command.go, apdu/response.go and apdu/utils.go.
-- - Crypto: crypto/ccm.go and parts of crypto/crypto.go. Padding, Ccm, Cbc.
-- - SecureChannelV1: secure_channel.go; Opening has its handshakes. SecureChannelV2:
--   secure_channel_v2.go, and sendProtected of command_set.go on a V2 channel; Handshake has AutoOpen
--   with the card's certificate and signature.
-- - Types: types/. Metadata, ApplicationInfo (with cash_application_info.go), ApplicationStatus,
--   CardStatus, Keys (lee.go, exported_key.go, bip32.go), Pairing, Signature, Certificate, Mnemonic,
--   Seeds (bip32.go, mnemonic.go, ethereum.go).
-- - DerivationPath: derivationpath/. Encoder, Decoder (a state machine over the bytes of the text, the
--   parse function to call next as a mode), KeyPath.
-- - Constants, Commands, Errors: constants.go, commands.go, errors.go and the ends of VerifyPIN and
--   UnblockPIN in command_set.go.
-- - Apdu.NormalChannel: io/normal_channel.go.
-- - CommandSet: command_set.go, and in Applets cash_command_set.go and ident_command_set.go. A call is
--   an action on the CommandSet and the state of the card; the interface SecureChannel is a data type
--   of the two channels. Keys, Signing, Opening, Pairing, Ndef and
--   Accessors have the calls of those names; Runs has what a program can reach by them.
-- - GlobalPlatform: globalplatform/. Des is crypto/crypto.go, Scp02 the wrapper and its channel,
--   Session the session, Requests the commands and the encoding of the files, Load the load stream,
--   Manager the CommandSet of that package.
-- - Identifiers: identifiers/identifiers.go. Secrets: secrets.go. Hex: hexutils/hexutils.go.
-- - Tests: runs on concrete data and the theorems at concrete data.
--
-- Representation. A byte, a uint16 or a uint32 is a natural number, and conversions that cut off are
-- written out (uint8, uint16, uint32). A byte slice, an array and a string are lists of bytes; a nil
-- slice is none where the code compares with nil. A Go pair (value, error) is a Result.
--
-- Parameters. Crypto.Aes.Aes holds what the code uses of Go's crypto/aes and crypto/cipher, and
-- AesLaws what their documentation says: blocks keep their size, CBC decryption undoes CBC encryption
-- on whole blocks. Crypto.Curve.Curve holds SHA-256, HKDF and the calls of the two secp256k1
-- libraries. SHA-512, PBKDF2, strings.TrimSpace and strings.Fields are functions. What rand.Read and
-- GenerateKey give, or their error, is an argument. GlobalPlatform.Des.Des is CBC with single and
-- triple DES, of which DesLaws says that it keeps the size and that CBC
-- goes on with the last block. A card is a function on a state of its own.
--
-- Bounds. Loops over slices are by recursion on the slice or on a count that the code has. Six loops
-- take rounds: the binary search of the wallets gets as many as there are wallets, the parser of the
-- metadata, the load stream and the chunks of SetNDEF at least as many as there are bytes, the path
-- decoder two more, and the channel two, for a command and its GET RESPONSE, since each round halves the interval,
-- uses up at least one byte, or leaves the start. Positions in a slice are far below 2 ^ 63, so sums
-- of int do not wrap.
--
-- Not modelled: calls of libraries (zip, base64, Keccak, random numbers),
-- input and output, texts of messages, and the list of the English words, which is an argument.
pub mod Base
pub mod Tlv
pub mod Apdu
pub mod Crypto
pub mod SecureChannelV2
pub mod SecureChannelV1
pub mod Types
pub mod Errors
pub mod DerivationPath
pub mod Constants
pub mod Commands
pub mod GlobalPlatform
pub mod CommandSet
pub mod Secrets
pub mod Hex
pub mod Identifiers
mod Tests
