-- ===== src/Crypto/Blobs.antt =====
-- What is sealed and serialized is read back.
use native.Mathlib.Nat.{pow-suc}
use janus_secrets.Common.{
  ℕ, zero, suc, ◌+◌, ◌*◌, ◌/◌, ◌%◌, ◌^◌, ◌≤◌, ◌<◌, ◌≡◌, refl, [], ◌∷◌, ◌++◌, some, length,
  length-append, take, drop, take-append, drop-append, arith, Bytes, ok,
}
use janus_secrets.Audit.Bytes.{big_endian}
use janus_secrets.Audit.Bytes.Prefix.{length-big_endian}
use janus_secrets.Crypto.{
  Aead, Ciphertext, encrypt, decrypt, marshal, read_big_endian, parse_ciphertext, wrap_key,
  unwrap_key, nonce_size,
}

read_big_endian-append :
    (acc : ℕ) (xs ys : Bytes)
    → read_big_endian acc (xs ++ ys) ≡ read_big_endian (read_big_endian acc xs) ys
unfolding read_big_endian
read_big_endian-append acc [] ys = refl
read_big_endian-append acc (x ∷ xs) ys = read_big_endian-append (acc * 256 + x) xs ys

read_big_endian-big_endian : (k v : ℕ) → v < 256 ^ k → read_big_endian 0 (big_endian k v) ≡ v
unfolding read_big_endian big_endian
read_big_endian-big_endian zero v h = omega arith
read_big_endian-big_endian (suc k) v h =
    let below : v / 256 < 256 ^ k = omega (arith, pow-suc 256 k) in
    omega (
      arith,
      read_big_endian-append 0 (big_endian k (v / 256)) ((v % 256) ∷ []),
      read_big_endian-big_endian k (v / 256) below,
    )

module _ (n : ℕ) (front back : Bytes) (h : length front ≡ n) where
  take-append_of_length : take n (front ++ back) ≡ front
  take-append_of_length = rw (← h) (take-append front back)

  drop-append_of_length : drop n (front ++ back) ≡ back
  drop-append_of_length = rw (← h) (drop-append front back)

-- A ciphertext that is serialized and parsed is the same, if its nonce has 12 bytes, its text at
-- least the 16 of the tag, and its key version fits 32 bits.
pub parse_ciphertext-marshal :
    (c : Ciphertext)
    → length c.nonce ≡ nonce_size
    → 16 ≤ length c.sealed_text
    → c.key_version < 2 ^ 32
    → parse_ciphertext (marshal c) ≡ ok c
unfolding parse_ciphertext marshal
parse_ciphertext-marshal c hn hs hv =
    let version = big_endian 4 c.key_version in
    let rest = c.nonce ++ c.sealed_text in
    let four : length version ≡ 4 = length-big_endian 4 c.key_version in
    let split : drop 4 (version ++ rest) ≡ rest = drop-append_of_length 4 version rest four in
    ground (
      arith,
      length-append version rest,
      length-append c.nonce c.sealed_text,
      take-append_of_length 4 version rest four,
      split,
      take-append_of_length nonce_size c.nonce c.sealed_text hn,
      drop-append_of_length nonce_size c.nonce c.sealed_text hn,
      read_big_endian-big_endian 4 c.key_version (omega arith),
    )

-- What the Go library's AEAD promises: it opens what it seals, and a sealed text holds the tag.
pub record Correct (e : Aead) : Type 0 where
  pub opens :
      (key nonce plaintext aad : Bytes)
      → e.open_sealed key nonce (e.seal key nonce plaintext aad) aad ≡ some plaintext
  pub tagged : (key nonce plaintext aad : Bytes) → 16 ≤ length (e.seal key nonce plaintext aad)

module _ (e : Aead) (lawful : Correct e) where
  pub decrypt-encrypt :
      (key nonce plaintext aad : Bytes) {ct : Ciphertext}
      → length nonce ≡ nonce_size
      → encrypt e key nonce plaintext aad ≡ ok ct
      → (decrypt e key ct aad ≡ ok plaintext) × (parse_ciphertext (marshal ct) ≡ ok ct)
  unfolding encrypt decrypt
  decrypt-encrypt key nonce plaintext aad {ct} hn h =
      let text = e.seal key nonce plaintext aad in
      let made : ct ≡ record { key_version = 0; nonce = nonce; sealed_text = text } =
        ground arith in
      (
        ground (arith, lawful.opens key nonce plaintext aad),
        rw made
            (parse_ciphertext-marshal _ hn (lawful.tagged key nonce plaintext aad) (omega arith)),
      )

  -- A wrapped key is unwrapped.
  pub unwrap_key-wrap_key :
      (wrapping_key nonce key_material aad : Bytes) {ct : Ciphertext}
      → length nonce ≡ nonce_size
      → wrap_key e wrapping_key nonce key_material aad ≡ ok ct
      → (unwrap_key e wrapping_key ct aad ≡ ok key_material)
        × (parse_ciphertext (marshal ct) ≡ ok ct)
  unfolding wrap_key unwrap_key
  unwrap_key-wrap_key wrapping_key nonce key_material aad {ct} hn h =
      let parts = decrypt-encrypt wrapping_key nonce key_material aad {ct = ct} hn (ground arith) in
      (ground (arith, parts.0), parts.1)
