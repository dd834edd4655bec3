-- ===== src/ProjectKeys/Sweeps.antt =====
-- A rewrap of a project that can be read comes to its end, and moves every value to the latest key.
use janus_secrets.Common.{
  ℕ, zero, suc, ◌+◌, ◌≤◌, ◌<◌, ◌≡◌, refl, inl, inr, true, false, Bool-cases, some, List, [], ◌∷◌,
  ◌++◌, any, length, arith, ltb, ltb→lt, ◌==◌, Bytes, ok, Result-cases,
}
use janus_secrets.Crypto.{
  Aead, Ciphertext, Keyring, parse_ciphertext, marshal, encrypt, unwrap_key, wrap_key, key_size,
}
use janus_secrets.ProjectKeys.{
  Value, Project, get_wrapped, referenced, delete_empty, unwrap_project_kek, kek_of, decrypt_value,
  rewrap_value, Batch, rewrap_batch, finished, retire, sweep, rewrap, is_old, value_aad, batch_size,
}
use janus_secrets.ProjectKeys.Lookups.{Bounded, get_wrapped-keep}

ltb-false : (a b : ℕ) → ltb a b ≡ false → b ≤ a
ltb-false a b h = ground arith

module _ (e : Aead) (k : Keyring) where
  unwrap_key-length :
      (key aad b : Bytes) (ct : Ciphertext) → unwrap_key e key ct aad ≡ ok b → length b ≡ key_size
  unfolding unwrap_key
  unwrap_key-length key aad b ct h = ground arith

  kek_of-length : (p : Project) (n : ℕ) (b : Bytes) → kek_of e k p n ≡ ok b → length b ≡ key_size
  unfolding kek_of unwrap_project_kek unwrap_key
  kek_of-length p n b h = ground arith

  abbrev pub IsReadable : Project → Value → Type 0
  IsReadable p v = (t : Bytes) × (decrypt_value e k p v ≡ ok t)

  abbrev pub AllReadable : Project → List Value → Type 0
  AllReadable p [] = Unit
  AllReadable p (v ∷ vs) = IsReadable p v × AllReadable p vs

  abbrev pub AllNew : Project → List Value → Type 0
  AllNew p [] = Unit
  AllNew p (v ∷ vs) = (is_old p v ≡ false) × AllNew p vs

  AllNew-append :
      (p : Project) (vs ws : List Value) → AllNew p vs → AllNew p ws → AllNew p (vs ++ ws)
  AllNew-append p [] ws a b = b
  AllNew-append p (v ∷ vs) ws a b = (a.0, AllNew-append p vs ws a.1 b)

  wrap_key_total :
      (key nonce material aad : Bytes)
      → length key ≡ key_size
      → length material ≡ key_size
      → (ct : Ciphertext) × (wrap_key e key nonce material aad ≡ ok ct)
  unfolding wrap_key encrypt
  wrap_key_total key nonce material aad hk hm = (
    record { key_version = 0; nonce = nonce; sealed_text = e.seal key nonce material aad },
    ground arith,
  )

  rewrap_value_total :
      (p : Project) (latest nonce : Bytes) (v : Value)
      → length latest ≡ key_size
      → IsReadable p v
      → (w : Value) × (rewrap_value e k p latest nonce v ≡ ok w) × (is_old p w ≡ false)
  unfolding rewrap_value decrypt_value
  rewrap_value_total p latest nonce v hl (t, r) =
      elim (Result-cases (kek_of e k p v.dek_key_version)) [
        | inr (x, bad) ↦ absurd (ground (arith, bad))
        | inl (old, h1) ↦ elim (Result-cases (parse_ciphertext v.wrapped_dek)) [
          | inr (x, bad) ↦ absurd (ground (arith, h1, bad))
          | inl (ct, h2) ↦ elim (Result-cases (unwrap_key e old ct (value_aad p v))) [
            | inr (x, bad) ↦ absurd (ground (arith, h1, h2, bad))
            | inl (plain, h3) ↦
                let (new, h4) =
                  wrap_key_total latest nonce plain (value_aad p v) hl
                    (unwrap_key-length old (value_aad p v) plain ct h3) in
                (
                  record v { wrapped_dek = marshal new; dek_key_version = p.kek_version },
                  ground (arith, h1, h2, h3, h4),
                  ground arith,
                )
          ]
        ]
      ]

  -- What a batch of at most n rows out of vs does.
  record IsBatch (p : Project) (n : ℕ) (vs : List Value) (b : Batch) : Type 0 where
    pub new : AllNew p b.done
    pub readable : AllReadable p b.rest
    pub through : b.processed < n → b.rest ≡ []
    pub smaller : length b.rest + b.processed ≤ length vs

  module _ (p : Project) (latest : Bytes) (draw : Value → Bytes)
      (sized : length latest ≡ key_size) where
    rewrap_batch_total :
        (n : ℕ) (vs : List Value)
        → AllReadable p vs
        → (b : Batch) × (rewrap_batch e k p latest draw n vs ≡ ok b) × IsBatch p n vs b
    unfolding rewrap_batch
    rewrap_batch_total zero vs r = (
      record { done = []; rest = vs; processed = 0 },
      refl,
      record { new = tt; readable = r; through = λ h. absurd (omega arith); smaller = omega arith },
    )
    rewrap_batch_total (suc n) [] r = (
      record { done = []; rest = []; processed = 0 },
      refl,
      record { new = tt; readable = tt; through = λ h. refl; smaller = omega arith },
    )
    rewrap_batch_total (suc n) (v ∷ vs) (r, rs) = elim (Bool-cases (is_old p v)) [
      | inl old ↦
          let (w, does, fresh) = rewrap_value_total p latest (draw v) v sized r in
          let (b, goes, i) = rewrap_batch_total n vs rs in
          (
            record { done = w ∷ b.done; rest = b.rest; processed = b.processed + 1 },
            rw (old, does, goes) refl,
            record {
              new = (fresh, i.new);
              readable = i.readable;
              through = λ h. i.through (omega arith);
              smaller = omega (arith, i.smaller);
            },
          )
      | inr young ↦
          let (b, goes, i) = rewrap_batch_total (suc n) vs rs in
          (
            record { done = v ∷ b.done; rest = b.rest; processed = b.processed },
            rw (young, goes) refl,
            record {
              new = (young, i.new);
              readable = i.readable;
              through = i.through;
              smaller = omega (arith, i.smaller);
            },
          )
    ]

    sweep_total :
        (n : ℕ) (done rest : List Value)
        → length rest < n
        → AllNew p done
        → AllReadable p rest
        → (vs : List Value) × (sweep e k p latest draw n done rest ≡ (vs, finished)) × AllNew p vs
    unfolding sweep rewrap_batch
    sweep_total zero done rest h a r = absurd (omega arith)
    sweep_total (suc n) done rest h a r =
        let (b, goes, i) = rewrap_batch_total batch_size rest r in
        elim (Bool-cases (ltb b.processed batch_size)) [
          | inl last ↦ (
            (done ++ b.done) ++ b.rest,
            rw (goes, last) refl,
            rw (i.through (ltb→lt _ _ last))
                (AllNew-append p (done ++ b.done) [] (AllNew-append p done b.done a i.new) tt),
          )
          | inr more ↦
              let (vs, ends, new) =
                sweep_total n (done ++ b.done) b.rest (omega (arith, i.smaller, ltb-false _ _ more))
                  (AllNew-append p done b.done a i.new) i.readable in
              (vs, rw (goes, more) ends, new)
        ]

  AllNew-any :
      (p : Project) (n : ℕ) (vs : List Value)
      → n < p.kek_version
      → AllNew p vs
      → any (λ (v : Value). v.dek_key_version == n) vs ≡ false
  AllNew-any p n [] h a = refl
  AllNew-any p n (v ∷ vs) h a = ground (arith, AllNew-any p n vs h a.1)

  retired-pinned :
      (p : Project) (n : ℕ) (w : Bytes)
      → Bounded p
      → AllNew p p.values
      → get_wrapped n (delete_empty p).superseded ≡ some w
      → any (λ m. m == n) p.pinned ≡ true
  unfolding delete_empty
  retired-pinned p n w b a h = elim (Bool-cases (ltb n p.kek_version)) [
    | inl old ↦ ground (
      arith,
      get_wrapped-keep (referenced p) n p.superseded,
      AllNew-any p n p.values (ground arith) a,
    )
    | inr young ↦
        absurd (ground (arith, get_wrapped-keep (referenced p) n p.superseded, b n (ground arith)))
  ]

  -- A rewrap comes to its end: let the keyring open the project's current KEK, let every value
  -- decrypt, and let the superseded versions be older than the current one. Then a `Rewrap` with
  -- more batches to spend than the project has values finishes, every value is under the current
  -- KEK, and the only superseded versions left are those that an edit request still needs.
  pub rewrap-finishes :
      (draw : Value → Bytes) (batches : ℕ) (p : Project) {latest : Bytes}
      → kek_of e k p p.kek_version ≡ ok latest
      → AllReadable p p.values
      → Bounded p
      → length p.values < batches
      → ((rewrap e k draw batches p).1 ≡ finished)
        × AllNew p (rewrap e k draw batches p).0.values
        × ((n : ℕ) (w : Bytes)
            → get_wrapped n (rewrap e k draw batches p).0.superseded ≡ some w
            → any (λ m. m == n) p.pinned ≡ true)
  unfolding rewrap retire delete_empty
  rewrap-finishes draw batches p {latest} has r b h =
      let (vs, ends, new) =
        sweep_total p latest draw (kek_of-length p p.kek_version latest has) batches [] p.values h
          tt r in
      rw (has, ends, rewrap)
        (refl, new, λ n w g. retired-pinned (record p { values = vs }) n w b new g)
