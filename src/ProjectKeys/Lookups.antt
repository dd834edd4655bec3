-- ===== src/ProjectKeys/Lookups.antt =====
-- Which KEK a version finds, before and after an operation.
use janus_secrets.Common.{
  ℕ, ◌≤◌, ◌≡◌, refl, Bool, true, none, List, [], ◌∷◌, keep, arith, if◌then◌else◌, Bytes, ok,
  >>=-eq-ok,
}
use janus_secrets.Crypto.{Aead, Keyring}
use janus_secrets.ProjectKeys.{
  Value, Project, get_wrapped, wrapped_for, referenced, delete_empty, kek_of, decrypt_value,
}

-- A superseded version is older than the current one.
abbrev pub Bounded : Project → Type 0
Bounded p = (n : ℕ) → p.kek_version ≤ n → get_wrapped n p.superseded ≡ none

pub get_wrapped-keep :
    (f : ℕ → Bool) (n : ℕ) (ss : List (ℕ × Bytes))
    → get_wrapped n (keep (λ s. f s.0) ss) ≡ (if f n then get_wrapped n ss else none)
unfolding get_wrapped
get_wrapped-keep f n [] = ground arith
get_wrapped-keep f n (s ∷ ss) = ground (arith, get_wrapped-keep f n ss)

pub delete_empty-Bounded : (p : Project) → Bounded p → Bounded (delete_empty p)
unfolding delete_empty
delete_empty-Bounded p b n h = ground (arith, get_wrapped-keep (referenced p) n p.superseded, b n h)

pub delete_empty-keeps :
    (p : Project) (n : ℕ) → referenced p n ≡ true → wrapped_for (delete_empty p) n ≡ wrapped_for p n
unfolding wrapped_for delete_empty
delete_empty-keeps p n h = rw (get_wrapped-keep (referenced p) n p.superseded) (rw h refl)

module _ (e : Aead) (k : Keyring) (p q : Project) (same_id : q.id ≡ p.id) where
  -- A value reads the same if its KEK's version finds the same wrapped key.
  pub decrypt_value-wrapped_for :
      (v : Value) (t : Bytes)
      → ((w : Bytes)
          → wrapped_for p v.dek_key_version ≡ ok w
          → wrapped_for q v.dek_key_version ≡ ok w)
      → decrypt_value e k p v ≡ ok t
      → decrypt_value e k q v ≡ ok t
  unfolding decrypt_value kek_of
  decrypt_value-wrapped_for v t f h =
      let (kek, opens, rest) = >>=-eq-ok _ _ h in
      let (w, finds, unwraps) = >>=-eq-ok _ _ opens in rw (f w finds, same_id) (rw unwraps rest)
