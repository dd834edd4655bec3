-- ===== src/Crypto/Samples.antt =====
-- An AEAD that hides nothing, for the tests: it writes the key in front of the text.
use janus_secrets.Common.{
  ◌≤◌, ◌≡◌, ◌≢◌, refl, inl, inr, Bool-cases, ◌&&◌, Option, none, some, [], ◌∷◌, ◌++◌, length,
  length-append, take, drop, take-append, drop-append, arith, ◌==◌, if◌then◌else◌, Bytes, bytes_eq,
  bytes_eq-eq, bytes_eq_refl,
}
use janus_secrets.Audit.Bytes.{zeros}
use janus_secrets.Crypto.{Aead}
use janus_secrets.Crypto.Blobs.{Correct}

abbrev tag : Bytes
tag = zeros 16

unfoldable pub plain_seal : Bytes → Bytes → Bytes → Bytes → Bytes
plain_seal key nonce plaintext aad = length key ∷ (key ++ (tag ++ plaintext))

unfoldable pub plain_open : Bytes → Bytes → Bytes → Bytes → Option Bytes
plain_open key nonce [] aad = none
plain_open key nonce (n ∷ text) aad =
    if n == length key && bytes_eq (take (length key) text) key
    then some (drop 16 (drop (length key) text))
    else none

abbrev pub plain_aead : Aead
plain_aead = record { seal = plain_seal; open_sealed = plain_open }

opens :
    (key nonce plaintext aad : Bytes)
    → plain_open key nonce (plain_seal key nonce plaintext aad) aad ≡ some plaintext
unfolding plain_open plain_seal
opens key nonce plaintext aad =
    rw (take-append key (tag ++ plaintext), drop-append key (tag ++ plaintext), bytes_eq_refl key)
      (ground arith)

tagged : (key nonce plaintext aad : Bytes) → 16 ≤ length (plain_seal key nonce plaintext aad)
unfolding plain_seal
tagged key nonce plaintext aad = omega (arith, length-append key (tag ++ plaintext))

pub plain_aead-Correct : Correct plain_aead
plain_aead-Correct = record { opens = opens; tagged = tagged }

pub plain_aead-Authentic :
    (key other nonce plaintext aad : Bytes)
    → key ≢ other
    → plain_open other nonce (plain_seal key nonce plaintext aad) aad ≡ none
unfolding plain_open plain_seal
plain_aead-Authentic key other nonce plaintext aad ne =
    elim (Bool-cases (length key == length other)) [
      | inr short ↦ rw short refl
      | inl same ↦
          let sizes : length other ≡ length key = ground arith in
          elim (Bool-cases (bytes_eq key other)) [
            | inl equal ↦ absurd (ne (bytes_eq-eq key other equal))
            | inr differ ↦ rw (sizes, take-append key (tag ++ plaintext), differ) (ground arith)
          ]
    ]
