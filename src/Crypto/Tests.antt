-- ===== src/Crypto/Tests.antt =====
-- Ciphertexts and places at concrete values.
use janus_secrets.Common.{◌∷◌, codes}
use janus_secrets.Audit.Bytes.{zeros}
use janus_secrets.Crypto.{Ciphertext}
use janus_secrets.Crypto.Places.{Place, totp_secret}

abbrev sample : Ciphertext
sample = record { key_version = 513; nonce = zeros 12; sealed_text = 7 ∷ 8 ∷ zeros 16 }

abbrev totp_place : Place
totp_place = totp_secret (codes "u:1")
