-- ===== src/ProjectKeys/Rewraps.antt =====
-- Key rotations and rewraps leave every value readable, with the text that it had.
use janus_secrets.Common.{
  ℕ, zero, suc, ◌+◌, ◌≡◌, refl, inl, inr, Bool, true, false, Bool-cases, List, [], ◌∷◌, ◌++◌,
  length, arith, ltb, if◌then◌else◌, Bytes, Result, ok, Result-cases, append_assoc,
}
use janus_secrets.Crypto.{
  Error, Aead, Keyring, parse_ciphertext, marshal, unwrap_key, wrap_key, nonce_size,
}
use janus_secrets.Crypto.Blobs.{Correct, unwrap_key-wrap_key}
use janus_secrets.ProjectKeys.{
  Value, Project, wrapped_for, delete_empty, kek_of, decrypt_value, rotate_kek, rewrap_value, Batch,
  rewrap_batch, Outcome, finished, interrupted, stopped, retire, sweep, rewrap, Op, rotating,
  rewrapping, run_op, run_ops, is_old, value_aad, batch_size,
}
use janus_secrets.ProjectKeys.Lookups.{Bounded, delete_empty-Bounded, decrypt_value-wrapped_for}
use janus_secrets.ProjectKeys.Reads.{
  Reads, Preserves, Preserves-trans, Preserves-append, Preserves-each, Preserves-refl,
  delete_empty-Preserves, rotate_kek-rotated, rotated-Bounded, rotated-Preserves,
}

module _ (e : Aead) (k : Keyring) where
  rewrap_value-Reads :
      (p : Project) (latest nonce : Bytes) (v w : Value)
      → Correct e
      → length nonce ≡ nonce_size
      → kek_of e k p p.kek_version ≡ ok latest
      → rewrap_value e k p latest nonce v ≡ ok w
      → Reads e k p p v w
  unfolding rewrap_value decrypt_value
  rewrap_value-Reads p latest nonce v w lawful hn hk h t r =
      elim (Result-cases (kek_of e k p v.dek_key_version)) [
        | inr (x, bad) ↦ absurd (ground (arith, bad))
        | inl (old, h1) ↦ elim (Result-cases (parse_ciphertext v.wrapped_dek)) [
          | inr (x, bad) ↦ absurd (ground (arith, h1, bad))
          | inl (ct, h2) ↦ elim (Result-cases (unwrap_key e old ct (value_aad p v))) [
            | inr (x, bad) ↦ absurd (ground (arith, h1, h2, bad))
            | inl (plain, h3) ↦
                elim (Result-cases (wrap_key e latest nonce plain (value_aad p v))) [
                  | inr (x, bad) ↦ absurd (ground (arith, h1, h2, h3, bad))
                  | inl (new, h4) ↦
                      let back =
                        unwrap_key-wrap_key e lawful latest nonce plain (value_aad p v) hn h4 in
                      let made : w ≡ record v {
                        wrapped_dek = marshal new;
                        dek_key_version = p.kek_version;
                      } =
                        ground (arith, h1, h2, h3, h4) in
                      rw (made, hk, back.1, back.0) (ground (arith, h1, h2, h3, r))
                ]
          ]
        ]
      ]

  -- The nonces that are drawn have their 12 bytes.
  abbrev pub IsDrawn : Op → Type 0
  IsDrawn (rotating fresh nonce) = Unit
  IsDrawn (rewrapping draw batches) = (v : Value) → length (draw v) ≡ nonce_size

  module _ (lawful : Correct e) (p : Project) (latest : Bytes) (draw : Value → Bytes)
      (drawn : (v : Value) → length (draw v) ≡ nonce_size)
      (has : kek_of e k p p.kek_version ≡ ok latest) where
    abbrev step_of : Bool → Value → Result Error Value
    step_of old v = if old then rewrap_value e k p latest (draw v) v else ok v

    step_of-Reads : (old : Bool) (v w : Value) → step_of old v ≡ ok w → Reads e k p p v w
    step_of-Reads true v w h = rewrap_value-Reads p latest (draw v) v w lawful (drawn v) has h
    step_of-Reads false v w h = λ t r. ground (arith, r)

    rewrap_batch-Preserves :
        (n : ℕ) (vs : List Value) (b : Batch)
        → rewrap_batch e k p latest draw n vs ≡ ok b
        → Preserves e k p p vs (b.done ++ b.rest)
    unfolding rewrap_batch
    rewrap_batch-Preserves zero vs b h =
        let made : b ≡ record { done = []; rest = vs; processed = 0 } = ground arith in
        rw made (Preserves-refl e k p vs)
    rewrap_batch-Preserves (suc n) [] b h =
        let made : b ≡ record { done = []; rest = []; processed = 0 } = ground arith in rw made tt
    rewrap_batch-Preserves (suc n) (v ∷ vs) b h =
        let m = if is_old p v then n else suc n in
        elim (Result-cases (step_of (is_old p v) v)) [
          | inr (x, bad) ↦ absurd (ground (arith, bad))
          | inl (w, h1) ↦ elim (Result-cases (rewrap_batch e k p latest draw m vs)) [
            | inr (x, bad) ↦ absurd (ground (arith, h1, bad))
            | inl (c, h2) ↦
                let made : b ≡ record {
                  done = w ∷ c.done;
                  rest = c.rest;
                  processed = if is_old p v then c.processed + 1 else c.processed;
                } =
                  ground (arith, h1, h2) in
                rw made (step_of-Reads (is_old p v) v w h1, rewrap_batch-Preserves m vs c h2)
          ]
        ]

    sweep-Preserves :
        (n : ℕ) (vs done rest : List Value)
        → Preserves e k p p vs (done ++ rest)
        → Preserves e k p p vs (sweep e k p latest draw n done rest).0
    unfolding sweep rewrap_batch
    sweep-Preserves zero vs done rest h = h
    sweep-Preserves (suc n) vs done rest h =
        elim (Result-cases (rewrap_batch e k p latest draw batch_size rest)) [
          | inr (x, bad) ↦ rw bad h
          | inl (b, good) ↦
              let all : Preserves e k p p vs ((done ++ b.done) ++ b.rest) =
                rw (append_assoc done b.done b.rest) (
                  Preserves-trans e k p p p vs (done ++ rest) (done ++ (b.done ++ b.rest)) h (
                    Preserves-append e k p p done done rest (b.done ++ b.rest)
                      (Preserves-refl e k p done)
                      (rewrap_batch-Preserves batch_size rest b good))) in
              elim (Bool-cases (ltb b.processed batch_size)) [
                | inl last ↦ rw (good, last) all
                | inr more ↦ rw (good, more) (sweep-Preserves n vs (done ++ b.done) b.rest all)
              ]
        ]

  with_values-Preserves :
      (p : Project) (vs : List Value) → Preserves e k p (record p { values = vs }) vs vs
  unfolding wrapped_for
  with_values-Preserves p vs =
      Preserves-each e k p (record p { values = vs }) vs
        λ v m t. decrypt_value-wrapped_for e k p (record p { values = vs }) refl v t (λ w h. h)

  retire-Preserves :
      (p : Project) (vs : List Value) (o : Outcome)
      → Bounded p
      → Preserves e k p p p.values vs
      → let q = (retire p (vs, o)).0 in Bounded q × Preserves e k p q p.values q.values
  unfolding retire delete_empty
  retire-Preserves p vs finished b h =
      let q = record p { values = vs } in
      (
        delete_empty-Bounded q b,
        Preserves-trans e k p q (delete_empty q) p.values vs vs
            (Preserves-trans e k p p q p.values vs vs h (with_values-Preserves p vs))
            (delete_empty-Preserves e k q),
      )
  retire-Preserves p vs interrupted b h = (
    b,
    Preserves-trans e k p p (record p { values = vs }) p.values vs vs h
        (with_values-Preserves p vs),
  )
  retire-Preserves p vs (stopped x) b h = (
    b,
    Preserves-trans e k p p (record p { values = vs }) p.values vs vs h
        (with_values-Preserves p vs),
  )

  rewrap-Preserves :
      (draw : Value → Bytes) (batches : ℕ) (p : Project)
      → Correct e
      → ((v : Value) → length (draw v) ≡ nonce_size)
      → Bounded p
      → Bounded (rewrap e k draw batches p).0
        × Preserves e k p
            (rewrap e k draw batches p).0
            p.values
            (rewrap e k draw batches p).0.values
  unfolding rewrap
  rewrap-Preserves draw batches p lawful d b = elim (Result-cases (kek_of e k p p.kek_version)) [
    | inr (x, bad) ↦ rw (bad, rewrap) (b, Preserves-refl e k p p.values)
    | inl (latest, has) ↦
        let after = sweep e k p latest draw batches [] p.values in
        rw (has, rewrap)
          (retire-Preserves p after.0 after.1 b (
            sweep-Preserves lawful p latest draw d has batches p.values [] p.values
              (Preserves-refl e k p p.values)))
  ]

  run_op-Preserves :
      (o : Op) (p : Project)
      → Correct e
      → IsDrawn o
      → Bounded p
      → Bounded (run_op e k o p) × Preserves e k p (run_op e k o p) p.values (run_op e k o p).values
  unfolding run_op
  run_op-Preserves (rotating fresh nonce) p lawful d b =
      elim (Result-cases (rotate_kek e k fresh nonce p)) [
        | inr (x, bad) ↦ rw bad (b, Preserves-refl e k p p.values)
        | inl (q, good) ↦
            let (w, same) = rotate_kek-rotated e k fresh nonce p q good in
            rw (good, same) (rotated-Bounded e k w p b, rotated-Preserves e k w p b)
      ]
  run_op-Preserves (rewrapping draw batches) p lawful d b =
      rewrap-Preserves draw batches p lawful d b

  abbrev pub AllDrawn : List Op → Type 0
  AllDrawn [] = Unit
  AllDrawn (o ∷ os) = IsDrawn o × AllDrawn os

  -- However an owner rotates the project's key and rewraps, in any order and with sweeps that stop
  -- after any number of batches, no secret is lost: a value that could be decrypted before decrypts
  -- to the same text after. The AEAD opens what it seals, the nonces that are drawn have their 12
  -- bytes, and the superseded versions are older than the current one at the start.
  pub run_ops-Preserves :
      (os : List Op) (p : Project)
      → Correct e
      → AllDrawn os
      → Bounded p
      → Preserves e k p (run_ops e k os p) p.values (run_ops e k os p).values
  unfolding run_ops
  run_ops-Preserves [] p lawful d b = Preserves-refl e k p p.values
  run_ops-Preserves (o ∷ os) p lawful d b =
      let q = run_op e k o p in
      let (b', first) = run_op-Preserves o p lawful d.0 b in
      Preserves-trans e k p q (run_ops e k os q) p.values q.values _ first
        (run_ops-Preserves os q lawful d.1 b')
