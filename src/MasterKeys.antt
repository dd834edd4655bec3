-- ===== src/MasterKeys.antt =====
-- The rotation of the master key (internal/masterkeys/service.go, RotateMaster of
-- internal/crypto/keyring.go, internal/store/masterkey.go), with the key check value of
-- internal/crypto/unseal.go. One call runs at a time.
pub mod Rewrapped
pub mod Rekey
pub mod Ceremony
mod Tests
use janus_secrets.Common.{
  ℕ, zero, suc, ◌+◌, ◌≡◌, Bool, true, false, ◌&&◌, ◌||◌, not, Option, none, some, List, [], ◌∷◌,
  ◌++◌, any, map, length, ltb, ◌==◌, if◌then◌else◌, Bytes, bytes_eq, codes, Result, ok, err, ◌>>=◌,
  ◌>>◌, reject_if,
}
use janus_secrets.Crypto.{
  Aead, Ciphertext, decrypt, encrypt, marshal, parse_ciphertext, Keyring, master_of, key_size,
}
use janus_secrets.Crypto
use janus_secrets.Crypto.Places.{
  Place, project_kek, auth_key, oidc_client_secret, transit_key, notification_channel, totp_secret,
  key_check, aad,
}

pub data Error : Type 0 where
  crypto : Crypto.Error → Error
  shamir_ceremony_required rekey_in_progress no_rekey kms_no_ceremony rekey_nonce : Error
  not_enough_shares invalid_share key_check_failed invalid_seal_config store_failed : Error

abbrev pub lift : {A : Type 0} → Result Crypto.Error A → Result Error A
lift (ok a) = ok a
lift (err x) = err (crypto x)

pub data SealType : Type 0 where
  shamir awskms gcpkms azurekv : SealType

pub record SealConfig : Type 0 where
  pub seal_type : SealType
  pub threshold : ℕ
  pub shares : ℕ
  pub key_check_value : Bytes

-- The tables that hold blobs under the master key: each row with what its associated data names.
pub record Tables : Type 0 where
  pub projects : List (Bytes × Bytes)
  pub kek_versions : List ((Bytes × ℕ) × Bytes)
  pub auth_config : List (Unit {0} × Bytes)
  pub oidc_providers : List (Bytes × Bytes)
  pub transit_versions : List ((Bytes × ℕ) × Bytes)
  pub channels : List (Bytes × Bytes)
  pub totp : List (Bytes × Bytes)

pub record Db : Type 0 where
  pub tables : Tables
  pub seal : SealConfig
  pub master_key_version : ℕ

abbrev pub kek_version_place : Bytes × ℕ → Place
kek_version_place r = project_kek r.0

abbrev pub auth_place : Unit {0} → Place
auth_place u = auth_key

abbrev pub oidc_place : Bytes → Place
oidc_place id = oidc_client_secret

abbrev pub transit_place : Bytes × ℕ → Place
transit_place r = transit_key r.0 r.1

module _ (e : Aead) where
  -- `makeKCV`
  unfoldable pub make_kcv : Bytes → Bytes → Result Error Bytes
  make_kcv nonce master = do
    ct ← lift (encrypt e master nonce (codes "janus-key-check-v1") (aad key_check))
    ok (marshal ct)

  abbrev pub checked : {A : Type 0} → Result Crypto.Error A → Result Error A
  checked (ok a) = ok a
  checked (err x) = err key_check_failed

  -- `verifyKCV`
  unfoldable pub verify_kcv : Bytes → Bytes → Result Error (Unit {0})
  verify_kcv master kcv = do
    ct ← checked (parse_ciphertext kcv)
    got ← checked (decrypt e master ct (aad key_check))
    reject_if (not (bytes_eq got (codes "janus-key-check-v1"))) key_check_failed

  -- The closures `unwrap` and `wrap` of `RotateMaster`, on one blob; `draw` gives the nonce.
  unfoldable pub rewrap_blob :
      Bytes → Bytes → (Bytes → Bytes) → Place → Bytes → Result Crypto.Error Bytes
  rewrap_blob old new draw place blob = do
    ct ← parse_ciphertext blob
    plain ← decrypt e old ct (aad place)
    c ← encrypt e new (draw blob) plain (aad place)
    ok (marshal c)

  -- `rewrapByID`, and its like for the other tables.
  unfoldable pub rewrap_rows :
      {A : Type 0}
      → Bytes
      → Bytes
      → (Bytes → Bytes)
      → (A → Place)
      → List (A × Bytes)
      → Result Crypto.Error (List (A × Bytes))
  rewrap_rows old new draw place [] = ok []
  rewrap_rows old new draw place ((id, blob) ∷ rows) = do
    blob' ← rewrap_blob old new draw (place id) blob
    rows' ← rewrap_rows old new draw place rows
    ok ((id, blob') ∷ rows')

  -- `RewrapAllUnderNewMaster`, up to the seal metadata.
  unfoldable pub rewrap_tables :
      Bytes → Bytes → (Bytes → Bytes) → Tables → Result Crypto.Error Tables
  rewrap_tables old new draw t = do
    projects ← rewrap_rows old new draw project_kek t.projects
    kek_versions ← rewrap_rows old new draw kek_version_place t.kek_versions
    auth_config ← rewrap_rows old new draw auth_place t.auth_config
    oidc_providers ← rewrap_rows old new draw oidc_place t.oidc_providers
    transit_versions ← rewrap_rows old new draw transit_place t.transit_versions
    channels ← rewrap_rows old new draw notification_channel t.channels
    totp ← rewrap_rows old new draw totp_secret t.totp
    ok (record {
      projects = projects;
      kek_versions = kek_versions;
      auth_config = auth_config;
      oidc_providers = oidc_providers;
      transit_versions = transit_versions;
      channels = channels;
      totp = totp;
    })

  -- `performRotation`, with the master key and the nonces that it draws, and what `Reseal` answers;
  -- `commits` is whether the transaction does.
  unfoldable pub perform_rotation :
      Bytes
      → (Bytes → Bytes)
      → Result Error SealConfig
      → Bool
      → Keyring × Db
      → Result Error (Keyring × Db)
  perform_rotation new draw resealed commits (k, db) = do
    old ← lift (master_of k)
    reject_if (not (length new == key_size)) (crypto Crypto.invalid_key_size)
    tables ← lift (rewrap_tables old new draw db.tables)
    cfg ← resealed
    reject_if (not commits) store_failed
    ok (
      some new,
      record { tables = tables; seal = cfg; master_key_version = db.master_key_version + 1 },
    )

  -- How the services open a blob under the master key.
  unfoldable pub open_wrapped : Keyring → Place → Bytes → Result Crypto.Error Bytes
  open_wrapped k place blob = do
    ct ← parse_ciphertext blob
    master ← master_of k
    decrypt e master ct (aad place)

-- `Rotate`, which only an AWS seal lets through.
unfoldable pub rotate :
    Aead
    → Bytes
    → (Bytes → Bytes)
    → Result Error SealConfig
    → Bool
    → Keyring × Db
    → Result Error (Keyring × Db)
rotate e new draw resealed commits (k, db) = elim db.seal.seal_type [
  | awskms ↦ perform_rotation e new draw resealed commits (k, db)
  | shamir ↦ err shamir_ceremony_required
  | gcpkms ↦ err shamir_ceremony_required
  | azurekv ↦ err shamir_ceremony_required
]
