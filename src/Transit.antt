-- ===== src/Transit.antt =====
-- One key of the transit engine (internal/transit, with the row updates of
-- internal/store/transit.go). The AEAD is a parameter, and so is fresh key material. A ciphertext is
-- the pair of version and body that its text form holds.
pub mod Keeps
mod Tests
use janus_secrets.Common.{
  ℕ, ◌+◌, Bool, true, false, ◌||◌, not, Option, none, some, List, [], ◌∷◌, ◌++◌, keep, ltb, leb,
  ◌==◌, if◌then◌else◌, Bytes, Result, ok, err, ◌>>=◌, ◌>>◌, reject_if,
}

pub data Error : Type 0 where
  sealed bad_ciphertext wrong_key_type version_too_old validation : Error

pub record KeyVersion : Type 0 where
  pub number : ℕ
  pub material : Bytes

pub record TransitKey : Type 0 where
  pub is_aes : Bool
  pub latest_version : ℕ
  pub min_decryption_version : ℕ
  pub deletion_allowed : Bool
  pub versions : List KeyVersion

-- `materialFor`
unfoldable pub material_for : ℕ → List KeyVersion → Option Bytes
material_for n [] = none
material_for n (v ∷ vs) =
    let rest = material_for n vs in if v.number == n then some v.material else rest

abbrev pub found_material : Option Bytes → Result Error Bytes
found_material none = err bad_ciphertext
found_material (some m) = ok m

-- `CreateKey`, past its checks.
unfoldable pub create_key : Bool → Bytes → TransitKey
create_key aes material = record {
  is_aes = aes;
  latest_version = 1;
  min_decryption_version = 1;
  deletion_allowed = false;
  versions = record { number = 1; material = material } ∷ [];
}

-- `Rotate`, with the material that it generates.
unfoldable pub rotate : Bool → Bytes → TransitKey → Result Error TransitKey
rotate is_sealed material k =
    if is_sealed
    then err sealed
    else ok (record k {
      latest_version = k.latest_version + 1;
      versions = k.versions ++ record { number = k.latest_version + 1; material = material } ∷ [];
    })

abbrev pub coalesce {ℓ} : {A : Type ℓ} → Option A → A → A
coalesce none a = a
coalesce (some b) a = b

abbrev out_of_range : Option ℕ → ℕ → Bool
out_of_range none latest = false
out_of_range (some n) latest = ltb n 1 || ltb latest n

-- `UpdateConfig`
unfoldable pub update_config : Option ℕ → Option Bool → TransitKey → Result Error TransitKey
update_config min_dec del_allowed k =
    if out_of_range min_dec k.latest_version
    then err validation
    else ok (record k {
      min_decryption_version = coalesce min_dec k.min_decryption_version;
      deletion_allowed = coalesce del_allowed k.deletion_allowed;
    })

-- `Trim`
unfoldable pub trim : ℕ → TransitKey → Result Error TransitKey
trim n k =
    if ltb n 1 || ltb k.min_decryption_version n
    then err validation
    else ok (record k { versions = keep (λ v. not (ltb v.number n)) k.versions })

pub data Op : Type 0 where
  rotating : Bool → Bytes → Op
  configuring : Option ℕ → Option Bool → Op
  trimming : ℕ → Op

abbrev pub run_op : Op → TransitKey → Result Error TransitKey
run_op (rotating s m) k = rotate s m k
run_op (configuring n d) k = update_config n d k
run_op (trimming n) k = trim n k

-- An operation that fails changes nothing.
abbrev pub after : Result Error TransitKey → TransitKey → TransitKey
after (ok k') k = k'
after (err e) k = k

unfoldable pub run_ops : List Op → TransitKey → TransitKey
run_ops [] k = k
run_ops (o ∷ ops) k = run_ops ops (after (run_op o k) k)

module _ (seal : Bytes → Bytes → Bytes → Bytes)
    (open_body : Bytes → Bytes → Bytes → Option Bytes) where
  -- `Encrypt`
  unfoldable pub encrypt : Bool → TransitKey → Bytes → Bytes → Result Error (ℕ × Bytes)
  encrypt is_sealed k plaintext aad = do
    reject_if is_sealed sealed
    reject_if (not k.is_aes) wrong_key_type
    material ← found_material (material_for k.latest_version k.versions)
    ok (k.latest_version, seal material plaintext aad)

  -- `Decrypt`, of a ciphertext that parses.
  unfoldable pub decrypt : Bool → TransitKey → ℕ × Bytes → Bytes → Result Error Bytes
  decrypt is_sealed k ct aad = do
    reject_if is_sealed sealed
    reject_if (not k.is_aes) wrong_key_type
    reject_if (ltb ct.0 k.min_decryption_version) version_too_old
    material ← found_material (material_for ct.0 k.versions)
    found_material (open_body material ct.1 aad)
