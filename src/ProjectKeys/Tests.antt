-- ===== src/ProjectKeys/Tests.antt =====
-- A project with one secret, under the AEAD of the tests.
use janus_secrets.Common.{
  ℕ, ◌≡◌, ◌≢◌, refl, some, List, [], ◌∷◌, arith, Bytes, codes, ok, err, bytes_eq,
}
use janus_secrets.Audit.Bytes.{zeros, big_endian}
use janus_secrets.Crypto.{
  decrypt_failed, Keyring, marshal, parse_ciphertext, unwrap_key, wrap_key, encrypt, decrypt,
}
use janus_secrets.Crypto.Places.{Place, rotation_config}
use janus_secrets.Crypto.Samples.{
  plain_aead, plain_seal, plain_open, plain_aead-Correct, plain_aead-Authentic,
}
use janus_secrets.ProjectKeys.{
  Value, Project, Blob, get_wrapped, wrapped_for, unwrap_project_kek, wrap_project_kek, kek_of,
  decrypt_value, rotated, rotate_kek, rotating, rewrapping, Op, run_ops, current_kek, seal_blob,
  open_blob,
}
use janus_secrets.ProjectKeys.Lookups.{Bounded}
use janus_secrets.ProjectKeys.Reads.{Preserves}
use janus_secrets.ProjectKeys.Rewraps.{run_ops-Preserves}
use janus_secrets.ProjectKeys.Blobs.{open_blob-rotated}

abbrev key : ℕ → Bytes
key n = n ∷ zeros 31

abbrev nonce : Bytes
nonce = zeros 12

abbrev keyring : Keyring
keyring = some (key 1)

abbrev sealed_by : Bytes → Bytes → Bytes
sealed_by k text =
    marshal (record { key_version = 0; nonce = nonce; sealed_text = plain_seal k nonce text [] })

abbrev value : Value
value = record {
  config_id = codes "c";
  key = codes "TOKEN";
  value_version = 1;
  wrapped_dek = sealed_by (key 2) (key 3);
  dek_key_version = 1;
  nonce = nonce;
  ciphertext = plain_seal (key 3) nonce (codes "secret") [];
}

abbrev project : Project
project = record {
  id = codes "p";
  kek_version = 1;
  wrapped_kek = sealed_by (key 1) (key 2);
  superseded = [];
  values = value ∷ [];
  pinned = [];
}

reads : decrypt_value plain_aead keyring project value ≡ ok (codes "secret")
unfolding decrypt_value kek_of wrapped_for unwrap_project_kek parse_ciphertext marshal big_endian
    plain_seal unwrap_key decrypt plain_open bytes_eq
reads = refl

has_kek : kek_of plain_aead keyring project 1 ≡ ok (key 2)
unfolding kek_of wrapped_for unwrap_project_kek parse_ciphertext marshal big_endian plain_seal
    unwrap_key decrypt plain_open bytes_eq
has_kek = refl

project-Bounded : Bounded project
unfolding get_wrapped
project-Bounded n h = refl

abbrev ops : List Op
ops = rotating (key 4) nonce ∷ rewrapping (λ v. nonce) 9 ∷ []

run_ops-Preserves_example :
    Preserves plain_aead keyring project
      (run_ops plain_aead keyring ops project)
      project.values
      (run_ops plain_aead keyring ops project).values
run_ops-Preserves_example =
    run_ops-Preserves plain_aead keyring ops project plain_aead-Correct (tt, (λ v. refl, tt))
      project-Bounded

abbrev place : Place
place = rotation_config (codes "r")

abbrev blob : Blob
blob = record {
  place = place;
  blob_dek = sealed_by (key 2) (key 5);
  dek_kek_version = 1;
  blob_nonce = nonce;
  blob_text = plain_seal (key 5) nonce (codes "dsn") [];
}

abbrev next : Project
next = rotated (sealed_by (key 1) (key 4)) project

keys_differ : key 2 ≢ key 4
keys_differ h = ground arith

open_blob-rotated_example :
    (open_blob plain_aead keyring next blob ≡ err decrypt_failed)
    × (wrapped_for next blob.dek_kek_version ≡ ok project.wrapped_kek)
unfolding current_kek unwrap_project_kek parse_ciphertext marshal big_endian plain_seal unwrap_key
    decrypt plain_open bytes_eq seal_blob wrap_key encrypt rotate_kek wrap_project_kek
open_blob-rotated_example =
    open_blob-rotated plain_aead keyring plain_aead-Correct project next place (key 2) (key 4)
      (key 5) nonce nonce nonce (codes "dsn") blob plain_aead-Authentic refl refl refl keys_differ
      refl refl refl
