-- ===== src/MasterKeys/Ceremony.antt =====
-- What a rekey ceremony proves before it rotates, and which seals can rotate at all.
use janus_secrets.Common.{
  ℕ, ◌≤◌, ◌≡◌, refl, inl, inr, ◌⊎◌, Bool, true, Bool-cases, ◌&&◌, Option, some, List, length, ltb,
  arith, ◌==◌, Bytes, bytes_eq, bytes_eq_refl, codes, Result, ok, err, Result-cases, Option-cases,
}
use janus_secrets.Crypto.{Aead, Keyring, encrypt, marshal, nonce_size}
use janus_secrets.Crypto.Blobs.{Correct, decrypt-encrypt}
use janus_secrets.Crypto.Places.{key_check, aad}
use janus_secrets.MasterKeys.{
  Error, shamir_ceremony_required, kms_no_ceremony, gcpkms, azurekv, SealConfig, Db, make_kcv,
  verify_kcv, rotate,
}
use janus_secrets.MasterKeys.Rekey.{
  Rekey, rekey_init, cleared, reconstruct, reseal, hold, finish_rekey, rekey_submit,
}

-- An instance that a Google or Azure key service unseals cannot rotate its master key: `Rotate`
-- asks for a rekey ceremony, and `RekeyInit` says that the seal has none.
pub cloud_seal-stuck :
    (e : Aead) (new : Bytes) (draw : Bytes → Bytes) (resealed : Result Error SealConfig)
    (commits : Bool) (master nonce : Bytes) (db : Db) (r : Rekey)
    → (db.seal.seal_type ≡ gcpkms) ⊎ (db.seal.seal_type ≡ azurekv)
    → (rotate e new draw resealed commits (some master, db) ≡ err shamir_ceremony_required)
      × (rekey_init nonce (some master, db) r ≡ err kms_no_ceremony)
unfolding rotate rekey_init
cloud_seal-stuck e new draw resealed commits master nonce db r h = ground arith

module _ (e : Aead) (split : Bytes → ℕ → ℕ → Option (List Bytes))
    (combine : List Bytes → Option Bytes) where
  reconstruct-proves :
      (cfg : SealConfig) (shares : List Bytes) (master : Bytes)
      → reconstruct e split combine cfg shares ≡ ok master
      → (cfg.threshold ≤ length shares) × (verify_kcv e master cfg.key_check_value ≡ ok tt)
  unfolding reconstruct
  reconstruct-proves cfg shares master h = ground arith

  finish_rekey-refuses :
      (new : Bytes) (draw : Bytes → Bytes) (resealed : Result Error (SealConfig × List Bytes))
      (commits : Bool) (held : List Bytes) (s : Keyring × Db) (x : Error)
      → reconstruct e split combine s.1.seal held ≡ err x
      → finish_rekey e split combine new draw resealed commits held s ≡ err x
  unfolding finish_rekey
  finish_rekey-refuses new draw resealed commits held s x h = rw h refl

  -- A share changes the keyring or the database only if it completes a ceremony that is open: the
  -- shares held with it are at least as many as the seal's threshold, they give a key that the key
  -- check value confirms, and the ceremony is over.
  pub rekey_submit-proven :
      (new : Bytes) (draw : Bytes → Bytes) (resealed : Result Error (SealConfig × List Bytes))
      (commits : Bool) (nonce share : Bytes) (s : Keyring × Db) (r : Rekey)
      → let after = rekey_submit e split combine new draw resealed commits nonce share s r in
        (after.0.0 ≡ s)
        ⊎ ((r.active ≡ true)
            × (after.1 ≡ cleared)
            × (s.1.seal.threshold ≤ length (hold share r.submitted))
            × (master : Bytes) × (reconstruct e split combine s.1.seal (hold share r.submitted)
                ≡ ok master)
            × (verify_kcv e master s.1.seal.key_check_value ≡ ok tt))
  unfolding rekey_submit
  rekey_submit-proven new draw resealed commits nonce share s r =
      let held = hold share r.submitted in
      elim (Result-cases (reconstruct e split combine s.1.seal held)) [
        | inr (x, bad) ↦
            inl (ground (arith, finish_rekey-refuses new draw resealed commits held s x bad))
        | inl (master, good) ↦ elim (Bool-cases r.active) [
          | inr off ↦ inl (rw off refl)
          | inl on ↦ elim (Bool-cases (bytes_eq nonce r.rekey_nonce_value)) [
            | inr other ↦ inl (rw (on, other) refl)
            | inl same ↦ elim (Bool-cases (ltb (length share) 2)) [
              | inl short ↦ inl (rw (on, same, short) refl)
              | inr long ↦ elim (Bool-cases (ltb (length held) r.required)) [
                | inl few ↦ inl (rw (on, same, long, few) refl)
                | inr enough ↦
                    let proofs = reconstruct-proves s.1.seal held master good in
                    inr (on, rw (on, same, long, enough) refl, proofs.0, master, good, proofs.1)
              ]
            ]
          ]
        ]
      ]

  -- What the vendored library promises of a split that succeeds.
  pub record Shamir : Type 0 where
    pub counted :
        (key : Bytes) (n t : ℕ) (parts : List Bytes)
        → split key n t ≡ some parts
        → (length parts ≡ n) × (t ≤ n) × (2 ≤ t)
    pub combined :
        (key : Bytes) (n t : ℕ) (parts : List Bytes)
        → split key n t ≡ some parts
        → combine parts ≡ some key

  module _ (lawful : Correct e) where
    verify_kcv-make_kcv :
        (nonce master kcv : Bytes)
        → length nonce ≡ nonce_size
        → make_kcv e nonce master ≡ ok kcv
        → verify_kcv e master kcv ≡ ok tt
    unfolding make_kcv verify_kcv
    verify_kcv-make_kcv nonce master kcv hn h =
        elim (Result-cases (encrypt e master nonce (codes "janus-key-check-v1") (aad key_check))) [
          | inr (x, bad) ↦ absurd (ground (arith, bad))
          | inl (ct, good) ↦
              let back = decrypt-encrypt e lawful master nonce _ (aad key_check) hn good in
              let made : kcv ≡ marshal ct = ground (arith, good) in
              rw (made, back.1, back.0, bytes_eq_refl (codes "janus-key-check-v1")) refl
        ]

    -- The shares that a rotation hands out unseal the server: `Reseal` of a Shamir seal, 1 of 1
    -- included, gives shares from which `ReconstructAndVerifyShamir` gets the new master key by the
    -- new seal. The vendored library combines what it splits; the AEAD opens what it seals.
    pub reconstruct-reseal :
        (nonce new : Bytes) (cfg cfg' : SealConfig) (parts : List Bytes)
        → Shamir
        → length nonce ≡ nonce_size
        → reseal e split combine nonce cfg new ≡ ok (cfg', parts)
        → reconstruct e split combine cfg' parts ≡ ok new
    unfolding reseal reconstruct
    reconstruct-reseal nonce new cfg cfg' parts sh hn h =
        elim (Result-cases (make_kcv e nonce new)) [
          | inr (x, bad) ↦ absurd (ground (arith, bad))
          | inl (kcv, made) ↦
              let checks = verify_kcv-make_kcv nonce new kcv hn made in
              elim (Bool-cases (cfg.shares == 1 && cfg.threshold == 1)) [
                | inl single ↦ ground (arith, made, single, checks)
                | inr several ↦ elim (Option-cases (split new cfg.shares cfg.threshold)) [
                  | inl none_given ↦ absurd (ground (arith, made, several, none_given))
                  | inr (ps, given) ↦ ground (
                    arith,
                    made,
                    several,
                    given,
                    checks,
                    sh.counted new cfg.shares cfg.threshold ps given,
                    sh.combined new cfg.shares cfg.threshold ps given,
                  )
                ]
              ]
        ]
