-- ===== src/Promote/Diff/Complete.antt =====
-- A diff lists each key of the two configs once.
use janus_secrets.Common.{
  ◌≡◌, refl, ◌∙◌, inl, inr, Bool, Bool-cases, false, ◌&&◌, ◌||◌, not, Option, none, some, List, [],
  ◌∷◌, ◌++◌, any, arith, Bytes, bytes_eq, bytes_eq-eq, bytes_eq_refl, Values, present, lookup,
}
use janus_secrets.Promote.Diff.{DiffEntry, entry_of, fresh_keys, entries_of, diff_entries}

pub any-fresh_keys :
    (k : Bytes) (seen : List Bytes) (m : Values)
    → any (bytes_eq k) (fresh_keys seen m) ≡ (present (lookup k m) && not (any (bytes_eq k) seen))
unfolding fresh_keys lookup
any-fresh_keys k seen [] = refl
any-fresh_keys k seen (e ∷ m) = elim (Bool-cases (any (bytes_eq e.0) seen)) [
  | inl t ↦ elim (Bool-cases (bytes_eq k e.0)) [
    | inl same ↦
        rw (bytes_eq-eq k e.0 same)
          (rw (t, bytes_eq_refl e.0, any-fresh_keys e.0 seen m, t) (ground arith))
    | inr other ↦ rw (t, other) (any-fresh_keys k seen m)
  ]
  | inr f ↦ elim (Bool-cases (bytes_eq k e.0)) [
    | inl same ↦ rw (bytes_eq-eq k e.0 same) (rw (f, bytes_eq_refl e.0) refl)
    | inr other ↦ rw (f, other) (any-fresh_keys k (e.0 ∷ seen) m ∙ rw other refl)
  ]
]

pub lookup-append :
    (k : Bytes) (m m' : Values)
    → present (lookup k (m ++ m')) ≡ (present (lookup k m) || present (lookup k m'))
unfolding lookup
lookup-append k [] m' = refl
lookup-append k (e ∷ m) m' = elim (Bool-cases (bytes_eq k e.0)) [
  | inl t ↦ rw t refl
  | inr f ↦ rw f (lookup-append k m m')
]

-- Whether a key is that of some entry.
abbrev pub has_entry : Bytes → List DiffEntry → Bool
has_entry k es = any (λ e. bytes_eq k e.key) es

-- No two entries have one key.
abbrev pub DistinctKeys : List DiffEntry → Type 0
DistinctKeys [] = Unit
DistinctKeys (e ∷ es) = (has_entry e.key es ≡ false) × DistinctKeys es

entry_of-key : (k : Bytes) (l : Bool) (s d : Option Bytes) → (entry_of k l s d).key ≡ k
unfolding entry_of
entry_of-key k l none none = refl
entry_of-key k l none (some d) = refl
entry_of-key k l (some s) none = refl
entry_of-key k l (some s) (some d) = ground arith

has_entry-entries_of :
    (k : Bytes) (src dst : Values) (locked ks : List Bytes)
    → has_entry k (entries_of src dst locked ks) ≡ any (bytes_eq k) ks
unfolding entries_of
has_entry-entries_of k src dst locked [] = refl
has_entry-entries_of k src dst locked (x ∷ ks) =
    rw
      (
        entry_of-key x (any (bytes_eq x) locked) (lookup x src) (lookup x dst),
        has_entry-entries_of k src dst locked ks,
      )
      refl

entries_of-DistinctKeys :
    (src dst : Values) (locked seen : List Bytes) (m : Values)
    → DistinctKeys (entries_of src dst locked (fresh_keys seen m))
unfolding entries_of fresh_keys
entries_of-DistinctKeys src dst locked seen [] = tt
entries_of-DistinctKeys src dst locked seen (e ∷ m) = elim (Bool-cases (any (bytes_eq e.0) seen)) [
  | inl t ↦ rw t (entries_of-DistinctKeys src dst locked seen m)
  | inr f ↦ rw f (
    rw (entry_of-key e.0 (any (bytes_eq e.0) locked) (lookup e.0 src) (lookup e.0 dst)) (
        has_entry-entries_of e.0 src dst locked (fresh_keys (e.0 ∷ seen) m)
        ∙ any-fresh_keys e.0 (e.0 ∷ seen) m
        ∙ rw (bytes_eq_refl e.0) (ground arith)),
    entries_of-DistinctKeys src dst locked (e.0 ∷ seen) m,
  )
]

-- The diff of a preview has an entry for a key exactly if the source or the target has the key, and
-- no two entries have one key.
pub diff_entries_complete :
    (src dst : Values) (locked : List Bytes)
    → ((k : Bytes)
        → has_entry k (diff_entries src dst locked)
          ≡ (present (lookup k src) || present (lookup k dst)))
      × DistinctKeys (diff_entries src dst locked)
unfolding diff_entries
diff_entries_complete src dst locked = (
  λ k.
      has_entry-entries_of k src dst locked (fresh_keys [] (src ++ dst))
      ∙ any-fresh_keys k [] (src ++ dst)
      ∙ rw (lookup-append k src dst) (ground arith),
  entries_of-DistinctKeys src dst locked [] (src ++ dst),
)
