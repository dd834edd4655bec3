-- ===== src/MasterKeys/Tests.antt =====
-- A server with one project under a 2-of-3 seal. The sharing of the tests hands out the key itself.
use janus_secrets.Common.{
  ℕ, zero, suc, ◌+◌, ◌≤◌, ◌≡◌, refl, ◌⊎◌, true, ◌&&◌, Option, some, none, List, [], ◌∷◌, length,
  leb, arith, if◌then◌else◌, Bytes, codes, bytes_eq, Result, ok,
}
use janus_secrets.Audit.Bytes.{zeros, big_endian}
use janus_secrets.Crypto.{Keyring, marshal, parse_ciphertext, encrypt, decrypt}
use janus_secrets.Crypto.Samples.{plain_aead, plain_seal, plain_open, plain_aead-Correct}
use janus_secrets.MasterKeys.{
  Error, shamir, gcpkms, SealConfig, Db, verify_kcv, rewrap_blob, rewrap_rows, rewrap_tables,
  perform_rotation,
}
use janus_secrets.MasterKeys.Rekey.{Rekey, cleared, reconstruct, hold, rekey_submit}
use janus_secrets.MasterKeys.Rewrapped.{read_all, perform_rotation-reads}
use janus_secrets.MasterKeys.Ceremony.{Shamir, rekey_submit-proven}

abbrev key : ℕ → Bytes
key n = n ∷ zeros 31

abbrev nonce : Bytes
nonce = zeros 12

abbrev draw : Bytes → Bytes
draw b = nonce

abbrev sealed_by : Bytes → Bytes → Bytes
sealed_by k text =
    marshal (record { key_version = 0; nonce = nonce; sealed_text = plain_seal k nonce text [] })

abbrev seal_of : Bytes → SealConfig
seal_of k = record {
  seal_type = shamir;
  threshold = 2;
  shares = 3;
  key_check_value = sealed_by k (codes "janus-key-check-v1");
}

abbrev db_of : Bytes → ℕ → Db
db_of k n = record {
  tables = record {
    projects = (codes "p", sealed_by k (key 7)) ∷ [];
    kek_versions = [];
    auth_config = (tt, sealed_by k (key 8)) ∷ [];
    oidc_providers = [];
    transit_versions = [];
    channels = [];
    totp = [];
  };
  seal = seal_of k;
  master_key_version = n;
}

abbrev old_keyring : Keyring
old_keyring = some (key 1)

abbrev new_keyring : Keyring
new_keyring = some (key 2)

perform_rotation-reads_example :
    (new_keyring ≡ some (key 2))
    × (◌≡◌ {A = Result Error SealConfig} (ok (seal_of (key 2))) (ok (db_of (key 2) 6).seal))
    × (◌≡◌ {A = ℕ} (db_of (key 2) 6).master_key_version ((db_of (key 1) 5).master_key_version + 1))
    × (read_all plain_aead new_keyring (db_of (key 2) 6).tables
        ≡ read_all plain_aead old_keyring (db_of (key 1) 5).tables)
unfolding perform_rotation rewrap_tables rewrap_rows rewrap_blob parse_ciphertext marshal big_endian
    plain_seal decrypt plain_open bytes_eq encrypt
perform_rotation-reads_example =
    perform_rotation-reads plain_aead plain_aead-Correct (key 1) (key 2) draw (λ b. refl)
      (ok (seal_of (key 2))) true old_keyring new_keyring (db_of (key 1) 5) (db_of (key 2) 6) refl
      refl

abbrev copies : ℕ → Bytes → List Bytes
copies zero b = []
copies (suc n) b = b ∷ copies n b

abbrev share_out : Bytes → ℕ → ℕ → Option (List Bytes)
share_out b n t = if leb 2 t && leb t n then some (copies n b) else none

abbrev first_share : List Bytes → Option Bytes
first_share [] = none
first_share (s ∷ ss) = some s

length-copies : (n : ℕ) (b : Bytes) → length (copies n b) ≡ n
length-copies zero b = refl
length-copies (suc n) b = omega (arith, length-copies n b)

copies-first : (n : ℕ) (b : Bytes) → 2 ≤ n → first_share (copies n b) ≡ some b
copies-first zero b h = absurd (omega arith)
copies-first (suc n) b h = refl

share_out-Shamir : Shamir plain_aead share_out first_share
share_out-Shamir = record {
  counted = λ b n t parts h. ground (arith, length-copies n b);
  combined = λ b n t parts h. ground (arith, copies-first n b);
}

abbrev open_rekey : Rekey
open_rekey = record {
  active = true;
  rekey_nonce_value = codes "n";
  required = 2;
  submitted = key 1 ∷ [];
}

abbrev before : Keyring × Db
before = (old_keyring, db_of (key 1) 5)

abbrev second_share : Bytes
second_share = codes "other"

abbrev resealed : Result Error (SealConfig × List Bytes)
resealed = ok (seal_of (key 2), [])

rekey_submit-proven_example :
    let after =
      rekey_submit plain_aead share_out first_share
        (key 2)
        draw
        resealed
        true
        (codes "n")
        second_share
        before
        open_rekey in
    (after.0.0 ≡ before)
    ⊎ ((open_rekey.active ≡ true)
        × (after.1 ≡ cleared)
        × (before.1.seal.threshold ≤ length (hold second_share open_rekey.submitted))
        × (master : Bytes) × (reconstruct plain_aead share_out first_share before.1.seal
              (hold second_share open_rekey.submitted)
            ≡ ok master)
        × (verify_kcv plain_aead master before.1.seal.key_check_value ≡ ok tt))
rekey_submit-proven_example =
    rekey_submit-proven plain_aead share_out first_share (key 2) draw resealed true (codes "n")
      second_share before open_rekey

abbrev cloud : Db
cloud = record (db_of (key 1) 5) { seal = record (seal_of (key 1)) { seal_type = gcpkms } }
