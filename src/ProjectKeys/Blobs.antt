-- ===== src/ProjectKeys/Blobs.antt =====
-- The blobs that the services keep under a project's key, before and after the key is rotated.
use janus_secrets.Common.{
  ◌≡◌, ◌≢◌, refl, inl, inr, none, length, arith, Bytes, ok, err, Result-cases,
}
use janus_secrets.Crypto.{
  decrypt_failed, Aead, Ciphertext, Keyring, marshal, encrypt, decrypt, unwrap_key, wrap_key,
  nonce_size, key_size, master_of,
}
use janus_secrets.Crypto.Blobs.{Correct, unwrap_key-wrap_key}
use janus_secrets.Crypto.Places.{Place, project_kek, aad}
use janus_secrets.ProjectKeys.Reads.{rotate_kek-rotated}
use janus_secrets.ProjectKeys.{
  Project, Blob, current_kek, seal_blob, open_blob, wrap_project_kek, unwrap_project_kek, rotated,
  rotate_kek, wrapped_for, get_wrapped,
}

-- What the Go library's AEAD promises of a wrong key: it does not open what another key has sealed.
abbrev pub Authentic : Aead → Type 0
Authentic e =
    (key other nonce plaintext aad : Bytes)
    → key ≢ other
    → e.open_sealed other nonce (e.seal key nonce plaintext aad) aad ≡ none

old_key-kept :
    (w : Bytes) (p : Project) → wrapped_for (rotated w p) p.kek_version ≡ ok p.wrapped_kek
unfolding wrapped_for get_wrapped
old_key-kept w p = ground arith

module _ (e : Aead) (k : Keyring) (lawful : Correct e) where
  wrap_project_kek-unwraps :
      (kek nonce id w : Bytes)
      → length nonce ≡ nonce_size
      → wrap_project_kek e k kek nonce id ≡ ok w
      → unwrap_project_kek e k w id ≡ ok kek
  unfolding wrap_project_kek unwrap_project_kek
  wrap_project_kek-unwraps kek nonce id w hn h = elim (Result-cases (master_of k)) [
    | inr (x, bad) ↦ absurd (ground (arith, bad))
    | inl (master, h1) ↦ elim (Result-cases (wrap_key e master nonce kek (aad (project_kek id)))) [
      | inr (x, bad) ↦ absurd (ground (arith, h1, bad))
      | inl (ct, h2) ↦
          let back = unwrap_key-wrap_key e lawful master nonce kek (aad (project_kek id)) hn h2 in
          let made : w ≡ marshal ct = ground (arith, h1, h2) in rw (made, back.1, h1) back.0
    ]
  ]

  wrong_key :
      (key other nonce material a : Bytes) {ct : Ciphertext}
      → Authentic e
      → key ≢ other
      → length nonce ≡ nonce_size
      → length other ≡ key_size
      → wrap_key e key nonce material a ≡ ok ct
      → unwrap_key e other ct a ≡ err decrypt_failed
  unfolding wrap_key unwrap_key encrypt decrypt
  wrong_key key other nonce material a {ct} auth ne hn ho h =
      ground (arith, auth key other nonce material a ne)

  seal_blob-wraps :
      (p : Project) (place : Place) (kek dek n1 n2 plaintext : Bytes) (b : Blob)
      → current_kek e k p ≡ ok kek
      → seal_blob e k p place dek n1 n2 plaintext ≡ ok b
      → (ct : Ciphertext) × (wrap_key e kek n1 dek (aad place) ≡ ok ct)
        × (b.blob_dek ≡ marshal ct)
        × (b.place ≡ place)
        × (b.dek_kek_version ≡ p.kek_version)
  unfolding seal_blob
  seal_blob-wraps p place kek dek n1 n2 plaintext b hk h =
      elim (Result-cases (wrap_key e kek n1 dek (aad place))) [
        | inr (x, bad) ↦ absurd (ground (arith, bad))
        | inl (ct, good) ↦ elim (Result-cases (encrypt e dek n2 plaintext (aad place))) [
          | inr (x, bad) ↦ absurd (ground (arith, good, bad))
          | inl (c, text) ↦ (
            ct,
            good,
            ground (arith, good, text),
            ground (arith, good, text),
            ground (arith, good, text),
          )
        ]
      ]

  wrap_project_kek-unsealed :
      (kek nonce id w : Bytes)
      → wrap_project_kek e k kek nonce id ≡ ok w
      → (master : Bytes) × (master_of k ≡ ok master)
  unfolding wrap_project_kek
  wrap_project_kek-unsealed kek nonce id w h = elim (Result-cases (master_of k)) [
    | inl opened ↦ opened
    | inr (x, bad) ↦ absurd (ground (arith, bad))
  ]

  current_kek-rotated :
      (fresh nonce : Bytes) (p q : Project)
      → length nonce ≡ nonce_size
      → rotate_kek e k fresh nonce p ≡ ok q
      → current_kek e k q ≡ ok fresh
  unfolding rotate_kek current_kek
  current_kek-rotated fresh nonce p q hn h =
      elim (Result-cases (wrap_project_kek e k fresh nonce p.id)) [
        | inr (x, bad) ↦ absurd (ground (arith, bad))
        | inl (w, good) ↦
            let (master, m) = wrap_project_kek-unsealed fresh nonce p.id w good in
            let made : q ≡ rotated w p = ground (arith, good) in
            rw (made, m) (wrap_project_kek-unwraps fresh nonce p.id w hn good)
      ]

  -- A blob cannot be opened any more once the project's key is rotated. Let a service seal a blob
  -- under a project's key, and let the key be rotated to a different one. Then opening the blob
  -- fails, although the old key is still among the superseded ones: `openBlob` tries the current
  -- key alone. The AEAD opens what it seals and does not open it with another key, keys have 32
  -- bytes and nonces 12.
  pub open_blob-rotated :
      (p q : Project) (place : Place) (kek fresh dek n1 n2 n3 plaintext : Bytes) (b : Blob)
      → Authentic e
      → length n1 ≡ nonce_size
      → length n3 ≡ nonce_size
      → length fresh ≡ key_size
      → kek ≢ fresh
      → current_kek e k p ≡ ok kek
      → seal_blob e k p place dek n1 n2 plaintext ≡ ok b
      → rotate_kek e k fresh n3 p ≡ ok q
      → (open_blob e k q b ≡ err decrypt_failed)
        × (wrapped_for q b.dek_kek_version ≡ ok p.wrapped_kek)
  unfolding open_blob
  open_blob-rotated p q place kek fresh dek n1 n2 n3 plaintext b auth h1 h3 hf ne hk sb rot =
      let (ct, wraps, stored, at_place, version) =
        seal_blob-wraps p place kek dek n1 n2 plaintext b hk sb in
      let parses = (unwrap_key-wrap_key e lawful kek n1 dek (aad place) h1 wraps).1 in
      (
        rw (current_kek-rotated fresh n3 p q h3 rot, stored, at_place, parses)
            (rw (wrong_key kek fresh n1 dek (aad place) auth ne h1 hf wraps) refl),
        let (w, made) = rotate_kek-rotated e k fresh n3 p q rot in
            rw (version, made) (old_key-kept w p),
      )
