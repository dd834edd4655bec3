-- ===== src/SecretSync/Fingerprint.antt =====
-- The bytes that the fingerprint of a desired map is taken of (`fingerprint`, `appendField` of
-- internal/secretsync/reconcile.go).
pub mod Exact
use janus_secrets.Common.{
  ℕ, ◌+◌, ◌%◌, ◌^◌, Bool, true, false, List, [], ◌∷◌, ◌++◌, length, ltb, ◌==◌, if◌then◌else◌, Bytes,
  Values,
}
use janus_secrets.Audit.Bytes.{big_endian}

-- The order of Go strings: by bytes, a prefix first.
unfoldable pub bytes_le : Bytes → Bytes → Bool
bytes_le [] b = true
bytes_le (x ∷ a) [] = false
bytes_le (x ∷ a) (y ∷ b) = let rest = bytes_le a b in if x == y then rest else ltb x y

unfoldable pub insert_entry : Bytes × Bytes → Values → Values
insert_entry e [] = e ∷ []
insert_entry e (x ∷ m) =
    let rest = insert_entry e m in if bytes_le e.0 x.0 then e ∷ x ∷ m else x ∷ rest

-- `sort.Strings` on the keys, each with its value.
unfoldable pub sort_entries : Values → Values
sort_entries [] = []
sort_entries (e ∷ m) = insert_entry e (sort_entries m)

-- `appendField`: an 8-byte length, then the text.
unfoldable pub sync_field : Bytes → Bytes
sync_field f = big_endian 8 (length f % 2 ^ 64) ++ f

unfoldable pub write_entries : Values → Bytes
write_entries [] = []
write_entries (e ∷ m) = sync_field e.0 ++ (sync_field e.1 ++ write_entries m)

unfoldable pub fingerprint_bytes : Values → Bytes
fingerprint_bytes desired = write_entries (sort_entries desired)
