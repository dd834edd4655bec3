-- ===== src/Audit/Bytes/Prefix.antt =====
-- Each written form is a prefix code: what follows it, and what was written, can be read back.
use native.Mathlib.Nat.{pow-suc}
use janus_secrets.Common.{
  Bytes, ℕ, zero, suc, ◌/◌, ◌%◌, ◌^◌, ◌<◌, ◌≡◌, refl, ap, sym, ◌∙◌, Option, none, some, [], ◌∷◌,
  ◌++◌, length, length-append, arith,
}
use mathlib.Core.List.{append_assoc}
use janus_secrets.Audit.Bytes.{big_endian, write_int64, write_str, write_nullable}

-- Two lists with heads of one length are equal only part by part.
pub append_inj :
    (xs ys us vs : Bytes) → length xs ≡ length ys → xs ++ us ≡ ys ++ vs → (xs ≡ ys) × (us ≡ vs)
append_inj [] [] us vs l h = (refl, h)
append_inj [] (y ∷ ys) us vs l h = absurd (omega arith)
append_inj (x ∷ xs) [] us vs l h = absurd (omega arith)
append_inj (x ∷ xs) (y ∷ ys) us vs l h = ground (arith, append_inj xs ys us vs)

pub length-big_endian : (k v : ℕ) → length (big_endian k v) ≡ k
unfolding big_endian
length-big_endian zero v = refl
length-big_endian (suc k) v =
    omega (
      arith,
      length-append (big_endian k (v / 256)) ((v % 256) ∷ []),
      length-big_endian k (v / 256),
    )

pub big_endian_inj :
    (k v w : ℕ) → v < 256 ^ k → w < 256 ^ k → big_endian k v ≡ big_endian k w → v ≡ w
unfolding big_endian
big_endian_inj zero v w hv hw h = omega arith
big_endian_inj (suc k) v w hv hw h =
    let (high, low) =
      append_inj (big_endian k (v / 256)) (big_endian k (w / 256)) ((v % 256) ∷ []) ((w % 256) ∷ [])
        (length-big_endian k (v / 256) ∙ sym (length-big_endian k (w / 256))) h in
    let below : v / 256 < 256 ^ k = omega (arith, pow-suc 256 k) in
    let below' : w / 256 < 256 ^ k = omega (arith, pow-suc 256 k) in
    let same = big_endian_inj k (v / 256) (w / 256) below below' high in
    let rest : v % 256 ≡ w % 256 = cc in omega arith

-- A code that can be read off the front of a stream: writer `f` on the values that meet `P`.
abbrev pub IsPrefixCode : {A : Type 0} → (A → Type 0) → (A → Bytes) → Type 0
IsPrefixCode {A} P f = (a b : A) (x y : Bytes) → P a → P b → f a ++ x ≡ f b ++ y → (a ≡ b) × (x ≡ y)

abbrev pub IsWord64 : ℕ → Type 0
IsWord64 v = v < 2 ^ 64

abbrev pub IsShort : Bytes → Type 0
IsShort s = length s < 2 ^ 32

abbrev pub IsShortOption : Option Bytes → Type 0
IsShortOption none = Unit
IsShortOption (some s) = IsShort s

pub write_int64-IsPrefixCode : IsPrefixCode IsWord64 write_int64
unfolding write_int64
write_int64-IsPrefixCode a b x y ha hb h =
    let (same, rest) =
      append_inj (big_endian 8 (a % 2 ^ 64)) (big_endian 8 (b % 2 ^ 64)) x y
        (length-big_endian 8 (a % 2 ^ 64) ∙ sym (length-big_endian 8 (b % 2 ^ 64))) h in
    let words = big_endian_inj 8 (a % 2 ^ 64) (b % 2 ^ 64) (omega arith) (omega arith) same in
    (omega arith, rest)

pub write_str-IsPrefixCode : IsPrefixCode IsShort write_str
unfolding write_str
write_str-IsPrefixCode s t x y hs ht h =
    let m = length s % 2 ^ 32 in
    let n = length t % 2 ^ 32 in
    let (lengths, rest) =
      append_inj (big_endian 4 m) (big_endian 4 n) (s ++ x) (t ++ y)
        (length-big_endian 4 m ∙ sym (length-big_endian 4 n))
        (sym (append_assoc (big_endian 4 m) s x) ∙ h ∙ append_assoc (big_endian 4 n) t y) in
    let words = big_endian_inj 4 m n (omega arith) (omega arith) lengths in
    append_inj s t x y (omega arith) rest

pub write_nullable-IsPrefixCode : IsPrefixCode IsShortOption write_nullable
unfolding write_nullable
write_nullable-IsPrefixCode none none x y hs ht h = (refl, cc)
write_nullable-IsPrefixCode none (some t) x y hs ht h = absurd (ground arith)
write_nullable-IsPrefixCode (some s) none x y hs ht h = absurd (ground arith)
write_nullable-IsPrefixCode (some s) (some t) x y hs ht h =
    let (same, rest) = write_str-IsPrefixCode s t x y hs ht (ground arith) in (ap some same, rest)
