-- ===== src/ProjectKeys.antt =====
-- The key-encryption key of one project (internal/projectkeys/service.go, RotateKEK of
-- internal/store/projects.go, internal/store/project_kek_versions.go and
-- internal/store/secrets_rewrap.go), the values that it protects (internal/secrets/secrets.go), and
-- the blobs of rotation policies, sync targets and dynamic roles (sealBlob and openBlob of
-- internal/rotation/rotation.go, and their copies in internal/secretsync and internal/dynamic).
pub mod Lookups
pub mod Reads
pub mod Rewraps
pub mod Sweeps
pub mod Blobs
mod Tests
use janus_secrets.Common.{
  ℕ, zero, suc, ◌+◌, ◌≡◌, Bool, true, false, ◌||◌, not, Option, none, some, List, [], ◌∷◌, ◌++◌,
  any, keep, length, ltb, ◌==◌, if◌then◌else◌, Bytes, codes, Result, ok, err, ◌>>=◌, ◌>>◌,
  reject_if,
}
use janus_secrets.Crypto.{
  Error, not_found, already_exists, Aead, Ciphertext, decrypt, encrypt, marshal, parse_ciphertext,
  wrap_key, unwrap_key, Keyring, master_of,
}
use janus_secrets.Crypto.Places.{Place, project_kek, dek, aad}

-- A row of `secret_values`.
pub record Value : Type 0 where
  pub config_id : Bytes
  pub key : Bytes
  pub value_version : ℕ
  pub wrapped_dek : Bytes
  pub dek_key_version : ℕ
  pub nonce : Bytes
  pub ciphertext : Bytes

-- The rows of `project_kek_versions`, the values in the order of their ids, and the KEK versions
-- of the edit requests that are pending or being applied.
pub record Project : Type 0 where
  pub id : Bytes
  pub kek_version : ℕ
  pub wrapped_kek : Bytes
  pub superseded : List (ℕ × Bytes)
  pub values : List Value
  pub pinned : List ℕ

-- `GetWrapped`
unfoldable pub get_wrapped : ℕ → List (ℕ × Bytes) → Option Bytes
get_wrapped n [] = none
get_wrapped n (s ∷ ss) = let rest = get_wrapped n ss in if s.0 == n then some s.1 else rest

abbrev pub found : Option Bytes → Result Error Bytes
found none = err not_found
found (some b) = ok b

-- The wrapped KEK of a version, as `forVersion` and `loadKEK` find it.
unfoldable pub wrapped_for : Project → ℕ → Result Error Bytes
wrapped_for p version =
    if version == p.kek_version then ok p.wrapped_kek else found (get_wrapped version p.superseded)

abbrev pub value_aad : Project → Value → Bytes
value_aad p v = aad (dek p.id (v.config_id ++ (codes "/" ++ v.key)) v.value_version)

-- `DeleteEmpty`
abbrev pub referenced : Project → ℕ → Bool
referenced p n = any (λ (v : Value). v.dek_key_version == n) p.values || any (λ m. m == n) p.pinned

unfoldable pub delete_empty : Project → Project
delete_empty p = record p { superseded = keep (λ s. referenced p s.0) p.superseded }

abbrev pub is_old : Project → Value → Bool
is_old p v = ltb v.dek_key_version p.kek_version

-- What a batch leaves: the rows up to its cursor, the rows after it, and the rows processed.
pub record Batch : Type 0 where
  pub done : List Value
  pub rest : List Value
  pub processed : ℕ

pub data Outcome : Type 0 where
  finished interrupted : Outcome
  stopped : Error → Outcome

abbrev pub batch_size : ℕ
batch_size = 200

-- The end of `Rewrap`: only a sweep that is through retires versions.
unfoldable pub retire : Project → List Value × Outcome → Project × Outcome
retire p (vs, finished) = (delete_empty (record p { values = vs }), finished)
retire p (vs, interrupted) = (record p { values = vs }, interrupted)
retire p (vs, stopped x) = (record p { values = vs }, stopped x)

-- The writes of `RotateKEK`.
abbrev pub rotated : Bytes → Project → Project
rotated wrapped p = record p {
  superseded = (p.kek_version, p.wrapped_kek) ∷ p.superseded;
  wrapped_kek = wrapped;
  kek_version = p.kek_version + 1;
}

module _ (e : Aead) (k : Keyring) where
  -- `ParseCiphertext`, then `UnwrapProjectKEK`.
  unfoldable pub unwrap_project_kek : Bytes → Bytes → Result Error Bytes
  unwrap_project_kek wrapped id = do
    ct ← parse_ciphertext wrapped
    master ← master_of k
    unwrap_key e master ct (aad (project_kek id))

  -- `forVersion`, `loadKEK`
  unfoldable pub kek_of : Project → ℕ → Result Error Bytes
  kek_of p version = do wrapped ← wrapped_for p version; unwrap_project_kek wrapped p.id

  -- `decryptValueOnce`
  unfoldable pub decrypt_value : Project → Value → Result Error Bytes
  decrypt_value p v = do
    kek ← kek_of p v.dek_key_version
    ct ← parse_ciphertext v.wrapped_dek
    plain_dek ← unwrap_key e kek ct (value_aad p v)
    decrypt e plain_dek (record { key_version = 0; nonce = v.nonce; sealed_text = v.ciphertext })
        (value_aad p v)

  -- `WrapProjectKEK` and `Marshal`.
  unfoldable pub wrap_project_kek : Bytes → Bytes → Bytes → Result Error Bytes
  wrap_project_kek kek nonce id = do
    master ← master_of k
    ct ← wrap_key e master nonce kek (aad (project_kek id))
    ok (marshal ct)

  -- `Rotate`, with the key and the nonce that it draws.
  unfoldable pub rotate_kek : Bytes → Bytes → Project → Result Error Project
  rotate_kek fresh nonce p = do
    reject_if (any (λ (s : ℕ × Bytes). s.0 == p.kek_version) p.superseded) already_exists
    wrapped ← wrap_project_kek fresh nonce p.id
    ok (rotated wrapped p)

  -- `rewrapFn`, with the update of the row.
  unfoldable pub rewrap_value : Project → Bytes → Bytes → Value → Result Error Value
  rewrap_value p latest nonce v = do
    old ← kek_of p v.dek_key_version
    ct ← parse_ciphertext v.wrapped_dek
    plain_dek ← unwrap_key e old ct (value_aad p v)
    new ← wrap_key e latest nonce plain_dek (value_aad p v)
    ok (record v { wrapped_dek = marshal new; dek_key_version = p.kek_version })

  -- `RewrapBatch` on the rows after the cursor. `draw` is the nonce that a row's wrap draws.
  unfoldable pub rewrap_batch :
      Project → Bytes → (Value → Bytes) → ℕ → List Value → Result Error Batch
  rewrap_batch p latest draw zero vs = ok (record { done = []; rest = vs; processed = 0 })
  rewrap_batch p latest draw (suc n) [] = ok (record { done = []; rest = []; processed = 0 })
  rewrap_batch p latest draw (suc n) (v ∷ vs) =
      let old = is_old p v in
      (if old then rewrap_value p latest (draw v) v else ok v) >>= λ v'.
      rewrap_batch p latest draw (if old then n else suc n) vs >>= λ b. ok (record {
        done = v' ∷ b.done;
        rest = b.rest;
        processed = if old then b.processed + 1 else b.processed;
      })

  -- The loop of `Rewrap`. A batch that fails is rolled back. The number of batches is the fuel: a
  -- crash after some batches is a sweep that is interrupted.
  unfoldable pub sweep :
      Project → Bytes → (Value → Bytes) → ℕ → List Value → List Value → List Value × Outcome
  sweep p latest draw zero done rest = (done ++ rest, interrupted)
  sweep p latest draw (suc n) done rest = elim (rewrap_batch p latest draw batch_size rest) [
    | err x ↦ (done ++ rest, stopped x)
    | ok b ↦ elim (ltb b.processed batch_size) [
      | true ↦ ((done ++ b.done) ++ b.rest, finished)
      | false ↦ sweep p latest draw n (done ++ b.done) b.rest
    ]
  ]

  -- `Rewrap`, of at most so many batches.
  unfoldable pub rewrap : (Value → Bytes) → ℕ → Project → Project × Outcome
  rewrap draw batches p = elim (kek_of p p.kek_version) [
    | err x ↦ (p, stopped x)
    | ok latest ↦ retire p (sweep p latest draw batches [] p.values)
  ]

-- The encrypted config of a rotation policy or a dynamic role, the credentials of a sync target, or
-- a rotation's value in flight.
pub record Blob : Type 0 where
  pub place : Place
  pub blob_dek : Bytes
  pub dek_kek_version : ℕ
  pub blob_nonce : Bytes
  pub blob_text : Bytes

module _ (e : Aead) (k : Keyring) where
  -- `unwrapProjectKEK` of the three services.
  unfoldable pub current_kek : Project → Result Error Bytes
  current_kek p = do master ← master_of k; unwrap_project_kek e k p.wrapped_kek p.id

  -- `sealBlob`, with the DEK and the nonces that it draws.
  unfoldable pub seal_blob : Project → Place → Bytes → Bytes → Bytes → Bytes → Result Error Blob
  seal_blob p place fresh_dek dek_nonce nonce plaintext = do
    kek ← current_kek p
    wrapped ← wrap_key e kek dek_nonce fresh_dek (aad place)
    c ← encrypt e fresh_dek nonce plaintext (aad place)
    ok (record {
      place = place;
      blob_dek = marshal wrapped;
      dek_kek_version = p.kek_version;
      blob_nonce = c.nonce;
      blob_text = c.sealed_text;
    })

  -- `openBlob`
  unfoldable pub open_blob : Project → Blob → Result Error Bytes
  open_blob p b = do
    kek ← current_kek p
    ct ← parse_ciphertext b.blob_dek
    plain_dek ← unwrap_key e kek ct (aad b.place)
    decrypt e plain_dek
        (record { key_version = 0; nonce = b.blob_nonce; sealed_text = b.blob_text }) (aad b.place)

-- What an owner does to the key: a rotation, or a rewrap.
pub data Op : Type 0 where
  rotating : (fresh nonce : Bytes) → Op
  rewrapping : (Value → Bytes) → ℕ → Op

-- A rotation that fails changes nothing.
abbrev pub after : Project → Result Error Project → Project
after p (ok q) = q
after p (err x) = p

module _ (e : Aead) (k : Keyring) where
  unfoldable pub run_op : Op → Project → Project
  run_op (rotating fresh nonce) p = after p (rotate_kek e k fresh nonce p)
  run_op (rewrapping draw batches) p = (rewrap e k draw batches p).0

  unfoldable pub run_ops : List Op → Project → Project
  run_ops [] p = p
  run_ops (o ∷ os) p = run_ops os (run_op o p)
