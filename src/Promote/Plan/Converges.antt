-- ===== src/Promote/Plan/Converges.antt =====
-- Promoting everything that a preview shows makes the target's values those of the source.
use janus_secrets.Common.{
  ◌≡◌, refl, sym, ◌∙◌, ◌⊎◌, inl, inr, Bool-cases, Option-cases, true, false, ◌||◌, Option, none,
  some, List, [], ◌∷◌, ◌++◌, any, arith, if◌then◌else◌, Bytes, bytes_eq, bytes_eq-eq, bytes_eq_refl,
  Values, present, lookup, put, delete, lookup-delete, lookup-delete_other,
}
use janus_secrets.Promote.Diff.{DiffEntry, Status, entry_of, fresh_keys, entries_of, diff_entries}
use janus_secrets.Promote.Diff.Complete.{any-fresh_keys, lookup-append}
use janus_secrets.Promote.Plan.{
  Selection, set_key, remove_key, select_changes, apply_change, apply_changes,
}

abbrev select_entry : Status → Bytes → List Selection → List Selection
select_entry Status.same k rest = rest
select_entry Status.remove k rest = record { key = k; action = remove_key } ∷ rest
select_entry Status.add k rest = record { key = k; action = set_key } ∷ rest
select_entry Status.change k rest = record { key = k; action = set_key } ∷ rest

-- A selection for each entry of a diff that is not the same on both sides.
unfoldable pub select_all : List DiffEntry → List Selection
select_all [] = []
select_all (e ∷ es) = select_entry e.status e.key (select_all es)

module _ (src dst : Values) (locked : List Bytes) where
  run : List Bytes → Values → Values
  run ks m =
      apply_changes (select_changes src (select_all (entries_of src dst locked ks))).changes m

  -- What the entry of one key does to the values.
  one : Option Bytes → Option Bytes → Bytes → Values → Values
  one (some s) none x m = put x s m
  one none (some d) x m = delete x m
  one none none x m = m
  one (some s) (some d) x m = if bytes_eq s d then m else put x s m

  run-cons :
      (x : Bytes) (ks : List Bytes) (m : Values)
      → run (x ∷ ks) m ≡ run ks (one (lookup x src) (lookup x dst) x m)
  unfolding run one entries_of entry_of select_all select_changes apply_changes apply_change
  run-cons x ks m = elim (Option-cases (lookup x src)) [
    | inl no_src ↦ elim (Option-cases (lookup x dst)) [
      | inl no_dst ↦ rw (no_src, no_dst) refl
      | inr (d, in_dst) ↦ rw (no_src, in_dst) refl
    ]
    | inr (s, in_src) ↦ elim (Option-cases (lookup x dst)) [
      | inl no_dst ↦ rw (in_src, no_dst) (rw in_src refl)
      | inr (d, in_dst) ↦ elim (Bool-cases (bytes_eq s d)) [
        | inl eq ↦ rw (in_src, in_dst, eq) refl
        | inr ne ↦ rw (in_src, in_dst, ne) (rw in_src refl)
      ]
    ]
  ]

  one-other :
      (s d : Option Bytes) (k x : Bytes) (m : Values)
      → bytes_eq k x ≡ false
      → lookup k (one s d x m) ≡ lookup k m
  unfolding one put lookup
  one-other (some s) none k x m f = rw f (lookup-delete_other k x m f)
  one-other none (some d) k x m f = lookup-delete_other k x m f
  one-other none none k x m f = refl
  one-other (some s) (some d) k x m f = elim (Bool-cases (bytes_eq s d)) [
    | inl eq ↦ rw eq refl
    | inr ne ↦ rw (ne, f) (lookup-delete_other k x m f)
  ]

  one-same :
      (s d : Option Bytes) (x : Bytes) (m : Values)
      → (lookup x m ≡ d) ⊎ (lookup x m ≡ s)
      → lookup x (one s d x m) ≡ s
  unfolding one put lookup
  one-same (some s) none x m h = rw (bytes_eq_refl x) refl
  one-same none (some d) x m h = lookup-delete x m
  one-same none none x m (inl h) = h
  one-same none none x m (inr h) = h
  one-same (some s) (some d) x m h = elim (Bool-cases (bytes_eq s d)) [
    | inl eq ↦
        rw eq (elim h [ inl at_dst ↦ at_dst ∙ rw (bytes_eq-eq s d eq) refl | inr at_src ↦ at_src ])
    | inr ne ↦ rw (ne, bytes_eq_refl x) refl
  ]

  run-nil : (m : Values) → run [] m ≡ m
  unfolding run entries_of select_all select_changes apply_changes
  run-nil m = refl

  run-settled :
      (k : Bytes) (ks : List Bytes) (m : Values)
      → lookup k m ≡ lookup k src
      → lookup k (run ks m) ≡ lookup k src
  run-settled k [] m h = rw (run-nil m) h
  run-settled k (x ∷ ks) m h = elim (Bool-cases (bytes_eq k x)) [
    | inl t ↦
        let same = bytes_eq-eq k x t in
        rw (run-cons x ks m) (
          run-settled k ks (one (lookup x src) (lookup x dst) x m)
            (rw same (one-same (lookup x src) (lookup x dst) x m (inr (rw same at h)))))
    | inr f ↦ rw (run-cons x ks m) (
        run-settled k ks (one (lookup x src) (lookup x dst) x m)
          (one-other (lookup x src) (lookup x dst) k x m f ∙ h))
  ]

  run-visits :
      (k : Bytes) (ks : List Bytes) (m : Values)
      → lookup k m ≡ lookup k dst
      → any (bytes_eq k) ks ≡ true
      → lookup k (run ks m) ≡ lookup k src
  run-visits k [] m h v = cc
  run-visits k (x ∷ ks) m h v = elim (Bool-cases (bytes_eq k x)) [
    | inl t ↦
        let same = bytes_eq-eq k x t in
        rw (run-cons x ks m) (
          run-settled k ks (one (lookup x src) (lookup x dst) x m)
            (rw same (one-same (lookup x src) (lookup x dst) x m (inl (rw same at h)))))
    | inr f ↦ rw (run-cons x ks m) (
        run-visits k ks (one (lookup x src) (lookup x dst) x m)
          (one-other (lookup x src) (lookup x dst) k x m f ∙ h) (rw f at v))
  ]

  run-untouched :
      (k : Bytes) (ks : List Bytes) (m : Values)
      → any (bytes_eq k) ks ≡ false
      → lookup k (run ks m) ≡ lookup k m
  run-untouched k [] m v = rw (run-nil m) refl
  run-untouched k (x ∷ ks) m v =
      let f : bytes_eq k x ≡ false = ground arith in
      rw (run-cons x ks m) (
        run-untouched k ks (one (lookup x src) (lookup x dst) x m) (rw f at v)
        ∙ one-other (lookup x src) (lookup x dst) k x m f)

  absent-both :
      (k : Bytes)
      → any (bytes_eq k) (fresh_keys [] (src ++ dst)) ≡ false
      → lookup k dst ≡ lookup k src
  absent-both k h =
      let none_there : (present (lookup k src) || present (lookup k dst)) ≡ false =
        sym (lookup-append k src dst) ∙ ground (arith, any-fresh_keys k [] (src ++ dst)) in
      ground arith

  -- If one selects every key that the diff of a source and a target shows as different, the changes
  -- that `Plan` makes of the selections turn the target's values into those of the source: every key
  -- has the source's value afterwards, and a key that the source does not have is gone.
  pub select_all-converges :
      (k : Bytes)
      → lookup k (
          apply_changes (select_changes src (select_all (diff_entries src dst locked))).changes dst)
        ≡ lookup k src
  unfolding diff_entries run
  select_all-converges k = elim (Bool-cases (any (bytes_eq k) (fresh_keys [] (src ++ dst)))) [
    | inl t ↦ run-visits k (fresh_keys [] (src ++ dst)) dst refl t
    | inr f ↦ run-untouched k (fresh_keys [] (src ++ dst)) dst f ∙ absent-both k f
  ]
