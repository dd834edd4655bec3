-- ===== src/Audit/Bytes.antt =====
-- Byte strings as lists of numbers, the comparison of them, and the big-endian and length-prefixed
-- forms that the audit encodings share (internal/audit/hash.go, internal/audit/checkpoint.go).
pub mod Prefix
use janus_secrets.Common.{
  Bytes, ℕ, String, zero, suc, ◌+◌, ◌*◌, ◌/◌, ◌%◌, ◌^◌, ◌<◌, ◌≡◌, refl, ap, Bool, true, false, ◌&&◌,
  Option, none, some, List, [], ◌∷◌, ◌++◌, length, arith, ◌==◌, ==_iff, ◌⊎◌, inl, inr, Bool-cases,
}

-- The low `k` bytes of a word, most significant first.
unfoldable pub big_endian : ℕ → ℕ → Bytes
big_endian zero v = []
big_endian (suc k) v = big_endian k (v / 256) ++ (v % 256) ∷ []

-- `binary.BigEndian.PutUint64` of the bit pattern of an int64.
unfoldable pub write_int64 : ℕ → Bytes
write_int64 v = big_endian 8 (v % 2 ^ 64)

-- A 4-byte length, then the bytes: the length wraps at 2^32 as the conversion to uint32 does.
unfoldable pub write_str : Bytes → Bytes
write_str s = big_endian 4 (length s % 2 ^ 32) ++ s

unfoldable pub write_nullable : Option Bytes → Bytes
write_nullable none = 0 ∷ []
write_nullable (some s) = 1 ∷ write_str s

abbrev pub zeros : ℕ → Bytes
zeros zero = []
zeros (suc n) = 0 ∷ zeros n
