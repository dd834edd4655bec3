-- ===== src/SecretSync/Fingerprint/Exact.antt =====
-- Two maps have the same fingerprint bytes only if they are the same map.
use janus_secrets.Common.{
  ◌%◌, ◌^◌, ◌<◌, ◌≡◌, refl, sym, ap, ◌∙◌, inl, inr, false, ◌||◌, [], ◌∷◌, ◌++◌, append_assoc,
  length, length-append, ◌≢◌, arith, Bool-cases, Bytes, bytes_eq, bytes_eq-eq, Values, lookup,
}
use janus_secrets.Audit.Bytes.{big_endian}
use janus_secrets.Audit.Bytes.Prefix.{append_inj, length-big_endian, big_endian_inj}
use janus_secrets.SecretSync.Provider.Untouched.{wanted}
use janus_secrets.SecretSync.Provider.Puts.{Distinct}
use janus_secrets.SecretSync.Fingerprint.{
  bytes_le, insert_entry, sort_entries, sync_field, write_entries, fingerprint_bytes,
}

-- Sorting keeps what a key is looked up as, and the keys.
insert_entry-wanted :
    (k : Bytes) (e : Bytes × Bytes) (m : Values) → wanted k (insert_entry e m) ≡ wanted k (e ∷ m)
unfolding insert_entry
insert_entry-wanted k e [] = refl
insert_entry-wanted k e (x ∷ m) = ground (arith, insert_entry-wanted k e m)

sort_entries-wanted : (k : Bytes) (m : Values) → wanted k (sort_entries m) ≡ wanted k m
unfolding sort_entries
sort_entries-wanted k [] = refl
sort_entries-wanted k (e ∷ m) =
    ground (arith, insert_entry-wanted k e (sort_entries m), sort_entries-wanted k m)

insert_entry-lookup :
    (k : Bytes) (e : Bytes × Bytes) (m : Values)
    → wanted e.0 m ≡ false
    → lookup k (insert_entry e m) ≡ lookup k (e ∷ m)
unfolding insert_entry lookup
insert_entry-lookup k e [] d = refl
insert_entry-lookup k e (x ∷ m) d = elim (Bool-cases (bytes_eq k e.0)) [
  | inl u ↦
      let apart : bytes_eq k x.0 || wanted k m ≡ false = rw (bytes_eq-eq k e.0 u) d in
      ground (arith, u, apart, d, insert_entry-lookup k e m)
  | inr u ↦ ground (arith, u, d, insert_entry-lookup k e m)
]

sort_entries-lookup : (k : Bytes) (m : Values) → Distinct m → lookup k (sort_entries m) ≡ lookup k m
unfolding sort_entries lookup
sort_entries-lookup k [] d = refl
sort_entries-lookup k (e ∷ m) d =
    let moved = insert_entry-lookup k e (sort_entries m) (sort_entries-wanted e.0 m ∙ d.0) in
    ground (arith, moved, sort_entries-lookup k m d.1)

-- Every key and value is shorter than 2^64 bytes.
abbrev pub AllShort : Values → Type 0
AllShort [] = Unit
AllShort (e ∷ m) = (length e.0 < 2 ^ 64) × (length e.1 < 2 ^ 64) × AllShort m

insert_entry-AllShort :
    (e : Bytes × Bytes) (m : Values)
    → length e.0 < 2 ^ 64
    → length e.1 < 2 ^ 64
    → AllShort m
    → AllShort (insert_entry e m)
unfolding insert_entry
insert_entry-AllShort e [] a b s = (a, b, tt)
insert_entry-AllShort e (x ∷ m) a b s = elim (Bool-cases (bytes_le e.0 x.0)) [
  | inl u ↦ rw u (a, b, s)
  | inr u ↦ rw u (s.0, s.1, insert_entry-AllShort e m a b s.2)
]

sort_entries-AllShort : (m : Values) → AllShort m → AllShort (sort_entries m)
unfolding sort_entries
sort_entries-AllShort [] s = tt
sort_entries-AllShort (e ∷ m) s =
    insert_entry-AllShort e (sort_entries m) s.0 s.1 (sort_entries-AllShort m s.2)

sync_field_inj :
    (f g x y : Bytes)
    → length f < 2 ^ 64
    → length g < 2 ^ 64
    → sync_field f ++ x ≡ sync_field g ++ y
    → (f ≡ g) × (x ≡ y)
unfolding sync_field
sync_field_inj f g x y sf sg h =
    let head = big_endian 8 (length f % 2 ^ 64) in
    let head' = big_endian 8 (length g % 2 ^ 64) in
    let (same, rest) =
      append_inj head head' (f ++ x) (g ++ y)
        (length-big_endian 8 (length f % 2 ^ 64) ∙ sym (length-big_endian 8 (length g % 2 ^ 64)))
        (sym (append_assoc head f x) ∙ (h ∙ append_assoc head' g y)) in
    let sized =
      big_endian_inj 8 (length f % 2 ^ 64) (length g % 2 ^ 64) (omega arith) (omega arith) same in
    append_inj f g x y (omega (arith, sized, sf, sg)) rest

sync_field-nonempty : (f x : Bytes) → sync_field f ++ x ≢ []
unfolding sync_field
sync_field-nonempty f x h = omega (
  arith,
  ap length h,
  length-append (big_endian 8 (length f % 2 ^ 64) ++ f) x,
  length-append (big_endian 8 (length f % 2 ^ 64)) f,
  length-big_endian 8 (length f % 2 ^ 64),
)

write_entries_inj :
    (m n : Values) → AllShort m → AllShort n → write_entries m ≡ write_entries n → m ≡ n
unfolding write_entries
write_entries_inj [] [] s t h = refl
write_entries_inj [] (e ∷ n) s t h =
    absurd (sync_field-nonempty e.0 (sync_field e.1 ++ write_entries n) (sym h))
write_entries_inj (e ∷ m) [] s t h =
    absurd (sync_field-nonempty e.0 (sync_field e.1 ++ write_entries m) h)
write_entries_inj (e ∷ m) (f ∷ n) s t h =
    let (keys, after_key) =
      sync_field_inj e.0 f.0 (sync_field e.1 ++ write_entries m) (sync_field f.1 ++ write_entries n)
        s.0 t.0 h in
    let (values, rest) =
      sync_field_inj e.1 f.1 (write_entries m) (write_entries n) s.1 t.1 after_key in
    let tails = write_entries_inj m n s.2 t.2 rest in cc

-- The fingerprint tells maps apart: if two maps with distinct keys, of keys and values shorter than
-- 2^64 bytes, give the fingerprint the same bytes, every key has the same value in both, or is in
-- neither, in whatever order the maps are visited.
pub fingerprint_bytes-exact :
    (m n : Values) (k : Bytes)
    → Distinct m
    → Distinct n
    → AllShort m
    → AllShort n
    → fingerprint_bytes m ≡ fingerprint_bytes n
    → lookup k m ≡ lookup k n
unfolding fingerprint_bytes
fingerprint_bytes-exact m n k dm dn sm sn h =
    let sorted =
      write_entries_inj (sort_entries m) (sort_entries n) (sort_entries-AllShort m sm)
        (sort_entries-AllShort n sn) h in
    sym (sort_entries-lookup k m dm) ∙ (ap (lookup k) sorted ∙ sort_entries-lookup k n dn)
