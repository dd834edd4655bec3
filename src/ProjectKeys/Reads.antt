-- ===== src/ProjectKeys/Reads.antt =====
-- What a rotation of the key, and the retirement of old versions, leave of every value.
use janus_secrets.Common.{
  ℕ, ◌≡◌, refl, ◌∙◌, inl, inr, true, List, [], ◌∷◌, ◌++◌, In, any_intro, arith, ◌==◌, Bytes, ok,
  Result-cases,
}
use janus_secrets.Crypto.{Aead, Keyring}
use janus_secrets.ProjectKeys.{
  Value, Project, get_wrapped, wrapped_for, referenced, delete_empty, decrypt_value,
  wrap_project_kek, rotated, rotate_kek,
}
use janus_secrets.ProjectKeys.Lookups.{Bounded, delete_empty-keeps, decrypt_value-wrapped_for}

module _ (e : Aead) (k : Keyring) where
  -- The row w of q reads as the row v of p does, if that one can be read.
  abbrev pub Reads : Project → Project → Value → Value → Type 0
  Reads p q v w = (t : Bytes) → decrypt_value e k p v ≡ ok t → decrypt_value e k q w ≡ ok t

  abbrev pub Preserves : Project → Project → List Value → List Value → Type 0
  Preserves p q [] [] = Unit {0}
  Preserves p q (v ∷ vs) (w ∷ ws) = Reads p q v w × Preserves p q vs ws
  Preserves p q [] (w ∷ ws) = ⊥
  Preserves p q (v ∷ vs) [] = ⊥

  pub Preserves-trans :
      (p q r : Project) (us vs ws : List Value)
      → Preserves p q us vs
      → Preserves q r vs ws
      → Preserves p r us ws
  Preserves-trans p q r [] [] [] a b = tt
  Preserves-trans p q r [] [] (w ∷ ws) a b = b
  Preserves-trans p q r [] (v ∷ vs) ws a b = absurd a
  Preserves-trans p q r (u ∷ us) [] ws a b = absurd a
  Preserves-trans p q r (u ∷ us) (v ∷ vs) [] a b = b
  Preserves-trans p q r (u ∷ us) (v ∷ vs) (w ∷ ws) a b =
      (λ t h. b.0 t (a.0 t h), Preserves-trans p q r us vs ws a.1 b.1)

  pub Preserves-append :
      (p q : Project) (us vs us' vs' : List Value)
      → Preserves p q us vs
      → Preserves p q us' vs'
      → Preserves p q (us ++ us') (vs ++ vs')
  Preserves-append p q [] [] us' vs' a b = b
  Preserves-append p q [] (v ∷ vs) us' vs' a b = absurd a
  Preserves-append p q (u ∷ us) [] us' vs' a b = absurd a
  Preserves-append p q (u ∷ us) (v ∷ vs) us' vs' a b =
      (a.0, Preserves-append p q us vs us' vs' a.1 b)

  pub Preserves-each :
      (p q : Project) (vs : List Value)
      → ((v : Value) → In v vs → Reads p q v v)
      → Preserves p q vs vs
  Preserves-each p q [] f = tt
  Preserves-each p q (v ∷ vs) f = (f v (inl refl), Preserves-each p q vs (λ w m. f w (inr m)))

  pub Preserves-refl : (p : Project) (vs : List Value) → Preserves p p vs vs
  Preserves-refl p vs = Preserves-each p p vs (λ v m t h. h)

  pub delete_empty-Preserves : (p : Project) → Preserves p (delete_empty p) p.values p.values
  unfolding delete_empty
  delete_empty-Preserves p = Preserves-each p (delete_empty p) p.values λ v m.
      let kept : referenced p v.dek_key_version ≡ true = rw (
        any_intro (λ (w : Value). w.dek_key_version == v.dek_key_version) v p.values m
          (ground arith)) in
      λ t.
        decrypt_value-wrapped_for e k p (delete_empty p) refl v t
          (λ w h. delete_empty-keeps p v.dek_key_version kept ∙ h)

  pub rotate_kek-rotated :
      (fresh nonce : Bytes) (p q : Project)
      → rotate_kek e k fresh nonce p ≡ ok q
      → (w : Bytes) × (q ≡ rotated w p)
  unfolding rotate_kek
  rotate_kek-rotated fresh nonce p q h =
      elim (Result-cases (wrap_project_kek e k fresh nonce p.id)) [
        | inl (w, made) ↦ (w, ground (arith, made))
        | inr (x, failed) ↦ absurd (ground (arith, failed))
      ]

  pub rotated-Bounded : (w : Bytes) (p : Project) → Bounded p → Bounded (rotated w p)
  unfolding get_wrapped
  rotated-Bounded w p b n h = ground (arith, b n)

  rotated-keeps :
      (w : Bytes) (p : Project) (n : ℕ) (x : Bytes)
      → Bounded p
      → wrapped_for p n ≡ ok x
      → wrapped_for (rotated w p) n ≡ ok x
  unfolding wrapped_for get_wrapped
  rotated-keeps w p n x b h = ground (arith, b n)

  pub rotated-Preserves :
      (w : Bytes) (p : Project) → Bounded p → Preserves p (rotated w p) p.values p.values
  rotated-Preserves w p b = Preserves-each p (rotated w p) p.values λ v m t.
      decrypt_value-wrapped_for e k p (rotated w p) refl v t
        (λ x h. rotated-keeps w p v.dek_key_version x b h)
