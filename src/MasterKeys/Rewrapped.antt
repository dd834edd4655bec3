-- ===== src/MasterKeys/Rewrapped.antt =====
-- A rotation of the master key leaves every blob readable, or changes nothing.
use janus_secrets.Common.{
  ◌+◌, ◌≡◌, refl, sym, ◌∙◌, inl, inr, Bool, some, List, [], ◌∷◌, ◌++◌, map, length, arith, Bytes,
  Result, ok, >>=-eq-ok, Result-cases,
}
use janus_secrets.Crypto.{
  Aead, Ciphertext, Keyring, decrypt, encrypt, marshal, parse_ciphertext, nonce_size, key_size,
  master_of,
}
use janus_secrets.Crypto
use janus_secrets.Crypto.Blobs.{Correct, decrypt-encrypt}
use janus_secrets.Crypto.Places.{Place, project_kek, notification_channel, totp_secret, aad}
use janus_secrets.MasterKeys.{
  Error, SealConfig, Tables, Db, kek_version_place, auth_place, oidc_place, transit_place,
  rewrap_blob, rewrap_rows, rewrap_tables, perform_rotation, open_wrapped,
}

module _ (e : Aead) where
  abbrev pub reads :
      {A : Type 0} → Keyring → (A → Place) → List (A × Bytes) → List (Result Crypto.Error Bytes)
  reads k place rows = map (λ r. open_wrapped e k (place r.0) r.1) rows

  -- What the services read of every blob under the master key.
  abbrev pub read_all : Keyring → Tables → List (Result Crypto.Error Bytes)
  read_all k t =
      reads k project_kek t.projects
      ++ (reads k kek_version_place t.kek_versions
          ++ (reads k auth_place t.auth_config
              ++ (reads k oidc_place t.oidc_providers
                  ++ (reads k transit_place t.transit_versions
                      ++ (reads k notification_channel t.channels ++ reads k totp_secret t.totp)))))

  module _ (lawful : Correct e) (old new : Bytes) (draw : Bytes → Bytes)
      (drawn : (b : Bytes) → length (draw b) ≡ nonce_size) where
    rewrap_blob-reads :
        (place : Place) (blob blob' : Bytes)
        → rewrap_blob e old new draw place blob ≡ ok blob'
        → open_wrapped e (some new) place blob' ≡ open_wrapped e (some old) place blob
    unfolding rewrap_blob open_wrapped
    rewrap_blob-reads place blob blob' h =
        let (ct, parses, h1) = >>=-eq-ok (parse_ciphertext blob) _ h in
        let (plain, decrypts, h2) = >>=-eq-ok (decrypt e old ct (aad place)) _ h1 in
        let (c, encrypts, h3) = >>=-eq-ok (encrypt e new (draw blob) plain (aad place)) _ h2 in
        let back =
          decrypt-encrypt e lawful new (draw blob) plain (aad place) (drawn blob) encrypts in
        let made : blob' ≡ marshal c = ground arith in
        rw (parses, made, back.1) (back.0 ∙ sym decrypts)

    rewrap_rows-reads :
        {A : Type 0} (place : A → Place) (rows rows' : List (A × Bytes))
        → rewrap_rows e old new draw place rows ≡ ok rows'
        → reads (some new) place rows' ≡ reads (some old) place rows
    unfolding rewrap_rows
    rewrap_rows-reads place [] rows' h = let made : rows' ≡ [] = ground arith in rw made refl
    rewrap_rows-reads place ((id, blob) ∷ rows) rows' h =
        let (blob', first, h1) = >>=-eq-ok (rewrap_blob e old new draw (place id) blob) _ h in
        let (rest, others, h2) = >>=-eq-ok (rewrap_rows e old new draw place rows) _ h1 in
        let made : rows' ≡ (id, blob') ∷ rest = ground arith in
        rw
          (
            made,
            rewrap_blob-reads (place id) blob blob' first,
            rewrap_rows-reads place rows rest others,
          )
          refl

    rewrap_tables-reads :
        (t t' : Tables)
        → rewrap_tables e old new draw t ≡ ok t'
        → read_all (some new) t' ≡ read_all (some old) t
    unfolding rewrap_tables
    rewrap_tables-reads t t' h =
        let (a, ha, h1) = >>=-eq-ok (rewrap_rows e old new draw project_kek t.projects) _ h in
        let (b, hb, h2) =
          >>=-eq-ok (rewrap_rows e old new draw kek_version_place t.kek_versions) _ h1 in
        let (c, hc, h3) = >>=-eq-ok (rewrap_rows e old new draw auth_place t.auth_config) _ h2 in
        let (d, hd, h4) = >>=-eq-ok (rewrap_rows e old new draw oidc_place t.oidc_providers) _ h3 in
        let (f, hf, h5) =
          >>=-eq-ok (rewrap_rows e old new draw transit_place t.transit_versions) _ h4 in
        let (g, hg, h6) =
          >>=-eq-ok (rewrap_rows e old new draw notification_channel t.channels) _ h5 in
        let (i, hi, h7) = >>=-eq-ok (rewrap_rows e old new draw totp_secret t.totp) _ h6 in
        let made : t' ≡ record {
          projects = a;
          kek_versions = b;
          auth_config = c;
          oidc_providers = d;
          transit_versions = f;
          channels = g;
          totp = i;
        } =
          ground arith in
        rw
          (
            made,
            rewrap_rows-reads project_kek t.projects a ha,
            rewrap_rows-reads kek_version_place t.kek_versions b hb,
            rewrap_rows-reads auth_place t.auth_config c hc,
            rewrap_rows-reads oidc_place t.oidc_providers d hd,
            rewrap_rows-reads transit_place t.transit_versions f hf,
            rewrap_rows-reads notification_channel t.channels g hg,
            rewrap_rows-reads totp_secret t.totp i hi,
          )
          refl

    -- What a rotation that succeeds has done: the new key is in memory, the version is the next, the
    -- seal is what `Reseal` answered, and the services read of every blob what they read before:
    -- project keys and their superseded versions, the token key, client secrets, transit keys,
    -- notification channels and TOTP secrets. The AEAD opens what it seals; the nonces that are
    -- drawn have 12 bytes.
    pub perform_rotation-reads :
        (resealed : Result Error SealConfig) (commits : Bool) (k k' : Keyring) (db db' : Db)
        → k ≡ some old
        → perform_rotation e new draw resealed commits (k, db) ≡ ok (k', db')
        → (k' ≡ some new)
          × (resealed ≡ ok db'.seal)
          × (db'.master_key_version ≡ db.master_key_version + 1)
          × (read_all k' db'.tables ≡ read_all k db.tables)
    unfolding perform_rotation
    perform_rotation-reads resealed commits k k' db db' has h =
        elim (Result-cases (rewrap_tables e old new draw db.tables)) [
          | inr (x, bad) ↦ absurd (ground (arith, bad))
          | inl (t, good) ↦
              let tables : db'.tables ≡ t = ground (arith, good) in
              let mine : k' ≡ some new = ground (arith, good) in
              (
                mine,
                ground (arith, good),
                ground (arith, good),
                rw (mine, has, tables) (rewrap_tables-reads db.tables t good),
              )
        ]
