-- ===== src/Crypto.antt =====
-- internal/crypto: AES-256-GCM with its serialized form (aead.go), key wrapping and the associated
-- data of every place where a ciphertext is stored (keys.go, sign.go), and the keyring
-- (keyring.go). The AEAD of the Go library is a parameter; a nonce that is drawn is an argument.
pub mod Blobs
pub mod Places
pub mod Binding
pub mod Samples
mod Tests
use janus_secrets.Common.{
  ℕ, zero, suc, ◌+◌, ◌*◌, ◌^◌, ◌≤◌, ◌≡◌, Bool, true, false, not, Option, none, some, List, [], ◌∷◌,
  ◌++◌, length, take, drop, ltb, ◌==◌, if◌then◌else◌, Bytes, bytes_eq, Result, ok, err, ◌>>=◌, ◌>>◌,
  reject_if,
}
use janus_secrets.Audit.Bytes.{big_endian}

abbrev pub key_size : ℕ
key_size = 32

abbrev pub nonce_size : ℕ
nonce_size = 12

abbrev pub format_version : ℕ
format_version = 1

abbrev pub min_marshaled_len : ℕ
min_marshaled_len = 33

-- The errors of internal/crypto, and those of the stores that hold the ciphertexts.
pub data Error : Type 0 where
  invalid_key_size decrypt_failed sealed already_unsealed not_found already_exists : Error

-- `cipher.AEAD` for AES-256-GCM: the key, the nonce, the text and the associated data.
pub record Aead : Type 0 where
  pub seal : Bytes → Bytes → Bytes → Bytes → Bytes
  pub open_sealed : Bytes → Bytes → Bytes → Bytes → Option Bytes

pub record Ciphertext : Type 0 where
  pub key_version : ℕ
  pub nonce : Bytes
  pub sealed_text : Bytes

abbrev pub opened : Option Bytes → Result Error Bytes
opened none = err decrypt_failed
opened (some p) = ok p

-- `Encrypt`, with the nonce that it draws.
unfoldable pub encrypt : Aead → Bytes → Bytes → Bytes → Bytes → Result Error Ciphertext
encrypt e key nonce plaintext aad = do
  reject_if (not (length key == key_size)) invalid_key_size
  ok (record { key_version = 0; nonce = nonce; sealed_text = e.seal key nonce plaintext aad })

-- `Decrypt`
unfoldable pub decrypt : Aead → Bytes → Ciphertext → Bytes → Result Error Bytes
decrypt e key ct aad = do
  reject_if (not (length key == key_size)) invalid_key_size
  reject_if (not (length ct.nonce == nonce_size)) decrypt_failed
  opened (e.open_sealed key ct.nonce ct.sealed_text aad)

-- `Marshal`
unfoldable pub marshal : Ciphertext → Bytes
marshal c = format_version ∷ (big_endian 4 c.key_version ++ (c.nonce ++ c.sealed_text))

-- `binary.BigEndian.Uint32`, of the bytes that it is given.
unfoldable pub read_big_endian : ℕ → Bytes → ℕ
read_big_endian acc [] = acc
read_big_endian acc (b ∷ bs) = read_big_endian (acc * 256 + b) bs

-- `ParseCiphertext`
unfoldable pub parse_ciphertext : Bytes → Result Error Ciphertext
parse_ciphertext [] = err decrypt_failed
parse_ciphertext (f ∷ b) = do
  reject_if (ltb (length b + 1) min_marshaled_len) decrypt_failed
  reject_if (not (f == format_version)) decrypt_failed
  ok (record {
    key_version = read_big_endian 0 (take 4 b);
    nonce = take nonce_size (drop 4 b);
    sealed_text = drop nonce_size (drop 4 b);
  })

-- `WrapKey`
unfoldable pub wrap_key : Aead → Bytes → Bytes → Bytes → Bytes → Result Error Ciphertext
wrap_key e wrapping_key nonce key_material aad = do
  reject_if (not (length key_material == key_size)) invalid_key_size
  encrypt e wrapping_key nonce key_material aad

-- `UnwrapKey`
unfoldable pub unwrap_key : Aead → Bytes → Ciphertext → Bytes → Result Error Bytes
unwrap_key e wrapping_key ct aad = do
  key ← decrypt e wrapping_key ct aad
  reject_if (not (length key == key_size)) decrypt_failed
  ok key

-- `Keyring`: the master key, or none while sealed.
abbrev pub Keyring : Type 0
Keyring = Option Bytes

-- `Keyring.Unseal`
unfoldable pub unseal : Bytes → Keyring → Result Error Keyring
unseal master k = do
  reject_if (not (length master == key_size)) invalid_key_size
  elim k as (λ o. Result Error Keyring) [
    | none ↦ ok (some master)
    | some old ↦ err already_unsealed
  ]

-- The master key of an operation on the keyring.
abbrev pub master_of : Keyring → Result Error Bytes
master_of none = err sealed
master_of (some master) = ok master
