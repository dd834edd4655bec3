-- ===== src/MasterKeys/Rekey.antt =====
-- The rekey ceremony of internal/masterkeys/service.go, with ReconstructAndVerifyShamir of
-- internal/crypto/unseal.go and Reseal of internal/crypto/shamir.go. The vendored Shamir library is
-- the parameters `split` and `combine`.
use janus_secrets.Common.{
  ℕ, Bool, true, false, ◌&&◌, not, Option, none, some, List, [], ◌∷◌, any, length, ltb, ◌==◌,
  if◌then◌else◌, Bytes, bytes_eq, Result, ok, err, ◌>>=◌, ◌>>◌, reject_if,
}
use janus_secrets.Crypto.{Aead, Keyring, master_of, key_size}
use janus_secrets.Crypto
use janus_secrets.MasterKeys.{
  Error, crypto, rekey_in_progress, no_rekey, kms_no_ceremony, rekey_nonce, not_enough_shares,
  invalid_share, key_check_failed, invalid_seal_config, lift, SealType, shamir, awskms, gcpkms,
  azurekv, SealConfig, Db, make_kcv, verify_kcv, perform_rotation,
}

-- `rekeyState`: the shares that were submitted are distinct.
pub record Rekey : Type 0 where
  pub active : Bool
  pub rekey_nonce_value : Bytes
  pub required : ℕ
  pub submitted : List Bytes

abbrev is_shamir : SealType → Bool
is_shamir shamir = true
is_shamir awskms = false
is_shamir gcpkms = false
is_shamir azurekv = false

-- `RekeyInit`, with the nonce that it draws.
unfoldable pub rekey_init : Bytes → Keyring × Db → Rekey → Result Error Rekey
rekey_init nonce (k, db) r = do
  master ← lift (master_of k)
  reject_if (not (is_shamir db.seal.seal_type)) kms_no_ceremony
  reject_if r.active rekey_in_progress
  ok (record {
    active = true;
    rekey_nonce_value = nonce;
    required = db.seal.threshold;
    submitted = [];
  })

-- `clearLocked`
abbrev pub cleared : Rekey
cleared = record { active = false; rekey_nonce_value = []; required = 0; submitted = [] }

abbrev pub found : Option Bytes → Error → Result Error Bytes
found none x = err x
found (some b) x = ok b

abbrev only_share : List Bytes → Option Bytes
only_share [] = none
only_share (s ∷ []) = some s
only_share (s ∷ t ∷ ss) = none

pub data Answer : Type 0 where
  complete : List Bytes → Answer
  progress : ℕ → Answer
  refused : Error → Answer

-- The shares that are held once this one is.
abbrev pub hold : Bytes → List Bytes → List Bytes
hold share held = if any (bytes_eq share) held then held else share ∷ held

-- The server after the call, and the answer.
abbrev pub finished :
    Keyring × Db → Result Error ((Keyring × Db) × List Bytes) → (Keyring × Db) × Answer
finished s (ok (after, shares)) = (after, complete shares)
finished s (err x) = (s, refused x)

module _ (e : Aead) (split : Bytes → ℕ → ℕ → Option (List Bytes))
    (combine : List Bytes → Option Bytes) where
  -- `ReconstructAndVerifyShamir`
  unfoldable pub reconstruct : SealConfig → List Bytes → Result Error Bytes
  reconstruct cfg shares = do
    reject_if (not (is_shamir cfg.seal_type)) invalid_seal_config
    reject_if (ltb (length shares) cfg.threshold) not_enough_shares
    master ← found (if cfg.threshold == 1 then only_share shares else combine shares) invalid_share
    reject_if (not (length master == key_size)) key_check_failed
    verify_kcv e master cfg.key_check_value
    ok master

  abbrev parts_of : Option (List Bytes) → Result Error (List Bytes)
  parts_of none = err invalid_share
  parts_of (some parts) = ok parts

  -- `Reseal` of a Shamir seal, with the nonce of the key check value.
  unfoldable pub reseal : Bytes → SealConfig → Bytes → Result Error (SealConfig × List Bytes)
  reseal nonce cfg new = do
    reject_if (not (is_shamir cfg.seal_type)) invalid_seal_config
    reject_if (not (length new == key_size)) (crypto Crypto.invalid_key_size)
    parts ←
        (if cfg.shares == 1 && cfg.threshold == 1
          then ok (new ∷ [])
          else parts_of (split new cfg.shares cfg.threshold))
    kcv ← make_kcv e nonce new
    ok (record cfg { key_check_value = kcv }, parts)

  -- What follows on the threshold: the proof of possession, then the rotation. `resealed` is what
  -- `Reseal` answers in it.
  unfoldable pub finish_rekey :
      Bytes
      → (Bytes → Bytes)
      → Result Error (SealConfig × List Bytes)
      → Bool
      → List Bytes
      → Keyring × Db
      → Result Error ((Keyring × Db) × List Bytes)
  finish_rekey new draw resealed commits held (k, db) = do
    candidate ← reconstruct db.seal held
    fresh ← resealed
    after ← perform_rotation e new draw (ok fresh.0) commits (k, db)
    ok (after, fresh.1)

  -- `RekeySubmit`
  unfoldable pub rekey_submit :
      Bytes
      → (Bytes → Bytes)
      → Result Error (SealConfig × List Bytes)
      → Bool
      → Bytes
      → Bytes
      → Keyring × Db
      → Rekey
      → ((Keyring × Db) × Answer) × Rekey
  rekey_submit new draw resealed commits nonce share s r =
      let held = hold share r.submitted in
      if not r.active
      then ((s, refused no_rekey), r)
      else if not (bytes_eq nonce r.rekey_nonce_value)
      then ((s, refused rekey_nonce), r)
      else if ltb (length share) 2
      then ((s, refused invalid_share), r)
      else if ltb (length held) r.required
      then ((s, progress (length held)), record r { submitted = held })
      else (finished s (finish_rekey new draw resealed commits held s), cleared)
