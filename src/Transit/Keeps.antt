-- ===== src/Transit/Keeps.antt =====
-- What rotation, configuration and trimming keep of a key.
use janus_secrets.Common.{
  ℕ, ◌+◌, ◌≤◌, ◌<◌, ◌≡◌, refl, ◌∙◌, inl, inr, Bool, Bool-cases, Option-cases, true, false, ◌||◌,
  not, Option, none, some, List, [], ◌∷◌, ◌++◌, keep, ltb, ◌==◌, arith, if◌then◌else◌, Bytes,
  present, Result, ok, err,
}
use janus_secrets.Transit.{
  Error, KeyVersion, TransitKey, material_for, create_key, rotate, coalesce, update_config, trim,
  Op, rotating, configuring, trimming, run_op, after, run_ops, encrypt, decrypt,
}

material_for-append :
    (n x : ℕ) (m : Bytes) (vs : List KeyVersion)
    → (x == n) ≡ false
    → material_for n (vs ++ record { number = x; material = m } ∷ []) ≡ material_for n vs
unfolding material_for
material_for-append n x m [] h = rw h refl
material_for-append n x m (v ∷ vs) h = rw (material_for-append n x m vs h) refl

material_for-last :
    (n : ℕ) (m : Bytes) (vs : List KeyVersion)
    → material_for n vs ≡ none
    → material_for n (vs ++ record { number = n; material = m } ∷ []) ≡ some m
unfolding material_for
material_for-last n m [] h = ground arith
material_for-last n m (v ∷ vs) h = ground (arith, material_for-last n m vs)

material_for-trim :
    (n x : ℕ) (vs : List KeyVersion)
    → material_for n (keep (λ v. not (ltb v.number x)) vs)
      ≡ (if ltb n x then none else material_for n vs)
unfolding material_for
material_for-trim n x [] = ground arith
material_for-trim n x (v ∷ vs) = ground (arith, material_for-trim n x vs)

-- The floor is within the versions, the latest version is there, and no later one is.
pub record IsSound (k : TransitKey) : Type 0 where
  pub floor_positive : 1 ≤ k.min_decryption_version
  pub floor_bounded : k.min_decryption_version ≤ k.latest_version
  pub has_latest : present (material_for k.latest_version k.versions) ≡ true
  pub none_later : (n : ℕ) → k.latest_version < n → material_for n k.versions ≡ none

pub create_key-IsSound : (aes : Bool) (material : Bytes) → IsSound (create_key aes material)
unfolding create_key material_for
create_key-IsSound aes material = record {
  floor_positive = omega arith;
  floor_bounded = omega arith;
  has_latest = refl;
  none_later = λ n h. ground arith;
}

rotate-IsSound :
    (s : Bool) (m : Bytes) (k k' : TransitKey) → IsSound k → rotate s m k ≡ ok k' → IsSound k'
unfolding rotate
rotate-IsSound true m k k' h e = cc
rotate-IsSound false m k k' h e =
    let new = k.latest_version + 1 in
    let same : k' ≡ record k {
      latest_version = new;
      versions = k.versions ++ record { number = new; material = m } ∷ [];
    } =
      ground arith in
    rw same (record {
      floor_positive = h.floor_positive;
      floor_bounded = omega (arith, h.floor_bounded);
      has_latest = rw (material_for-last new m k.versions (h.none_later new (omega arith))) refl;
      none_later = λ n l.
          material_for-append n new m k.versions (ground arith) ∙ h.none_later n (omega arith);
    })

update_config-IsSound :
    (n : Option ℕ) (d : Option Bool) (k k' : TransitKey)
    → IsSound k
    → update_config n d k ≡ ok k'
    → IsSound k'
unfolding update_config
update_config-IsSound none d k k' h e =
    let same : k' ≡ record k { deletion_allowed = coalesce d k.deletion_allowed } = ground arith in
    rw same (record {
      floor_positive = h.floor_positive;
      floor_bounded = h.floor_bounded;
      has_latest = h.has_latest;
      none_later = h.none_later;
    })
update_config-IsSound (some n) d k k' h e = elim (Bool-cases (ltb n 1 || ltb k.latest_version n)) [
  | inl t ↦ cc
  | inr f ↦
      let same : k' ≡ record k {
        min_decryption_version = n;
        deletion_allowed = coalesce d k.deletion_allowed;
      } =
        ground arith in
      rw same (record {
        floor_positive = ground arith;
        floor_bounded = ground arith;
        has_latest = h.has_latest;
        none_later = h.none_later;
      })
]

trim-IsSound : (n : ℕ) (k k' : TransitKey) → IsSound k → trim n k ≡ ok k' → IsSound k'
unfolding trim
trim-IsSound n k k' h e = elim (Bool-cases (ltb n 1 || ltb k.min_decryption_version n)) [
  | inl t ↦ cc
  | inr f ↦
      let same : k' ≡ record k { versions = keep (λ v. not (ltb v.number n)) k.versions } =
        ground arith in
      let kept : ltb k.latest_version n ≡ false = ground (arith, h.floor_bounded) in
      rw same (record {
        floor_positive = h.floor_positive;
        floor_bounded = h.floor_bounded;
        has_latest = rw (material_for-trim k.latest_version n k.versions, kept) h.has_latest;
        none_later = λ x l. material_for-trim x n k.versions ∙ rw (h.none_later x l) (ground arith);
      })
]

run_op-IsSound : (o : Op) (k k' : TransitKey) → IsSound k → run_op o k ≡ ok k' → IsSound k'
run_op-IsSound (rotating s m) k k' h e = rotate-IsSound s m k k' h e
run_op-IsSound (configuring n d) k k' h e = update_config-IsSound n d k k' h e
run_op-IsSound (trimming n) k k' h e = trim-IsSound n k k' h e

after-IsSound :
    (r : Result Error TransitKey) (k : TransitKey)
    → ((k' : TransitKey) → r ≡ ok k' → IsSound k')
    → IsSound k
    → IsSound (after r k)
after-IsSound (ok k') k f h = f k' refl
after-IsSound (err e) k f h = h

-- Any sequence of `Rotate`, `UpdateConfig` and `Trim` on a sound key leaves it sound, whatever of it
-- fails: the decryption floor stays between 1 and the latest version, the latest version's material
-- is there, and there is no later one.
pub run_ops-IsSound : (ops : List Op) (k : TransitKey) → IsSound k → IsSound (run_ops ops k)
unfolding run_ops
run_ops-IsSound [] k h = h
run_ops-IsSound (o ∷ ops) k h =
    run_ops-IsSound ops (after (run_op o k) k)
      (after-IsSound (run_op o k) k (λ k' e. run_op-IsSound o k k' h e) h)

module _ (seal : Bytes → Bytes → Bytes → Bytes)
    (open_body : Bytes → Bytes → Bytes → Option Bytes) where
  -- What `Encrypt` returns under a sound AES key, `Decrypt` gives back, while the engine is unsealed
  -- and the associated data is the same, if the AEAD opens what it seals.
  pub decrypt-encrypt :
      ((m p a : Bytes) → open_body m (seal m p a) a ≡ some p)
      → (k : TransitKey) (plaintext aad : Bytes) → IsSound k
      → k.is_aes ≡ true
      → (ct : ℕ × Bytes) × (encrypt seal open_body false k plaintext aad ≡ ok ct)
        × (decrypt seal open_body false k ct aad ≡ ok plaintext)
  unfolding encrypt decrypt
  decrypt-encrypt opens k p a h aes =
      elim (Option-cases (material_for k.latest_version k.versions)) [
        | inl absent ↦ absurd (let no : present none ≡ true = rw absent at h.has_latest in cc)
        | inr (m, found) ↦
            let above : ltb k.latest_version k.min_decryption_version ≡ false =
              ground (arith, h.floor_bounded) in
            (
              (k.latest_version, seal m p a),
              rw (aes, found) refl,
              rw (aes, above, found, opens m p a) refl,
            )
      ]
