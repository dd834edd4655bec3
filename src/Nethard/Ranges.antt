-- ===== src/Nethard/Ranges.antt =====
-- The list of the blocked ranges says what the guard does.
use janus_secrets.Common.{ℕ, ◌/◌, ◌%◌, ◌^◌, ◌<◌, ◌≡◌, inl, inr, any, ◌==◌, arith, Bool-cases}
use janus_secrets.Nethard.{
  Ip, v4, v6, unmap, contains_ip, is_unconditional, always_blocked_prefixes,
}

-- An address of its width.
abbrev pub IsAddress : Ip → Type 0
IsAddress (v4 n) = n < 2 ^ 32
IsAddress (v6 n) = n < 2 ^ 128

plain-always_blocked :
    (n : ℕ)
    → n < 2 ^ 32
    → any (λ b. contains_ip b (v4 n)) always_blocked_prefixes ≡ is_unconditional (v4 n)
unfolding is_unconditional
plain-always_blocked n h = ground arith

-- The list is in step with the tests: an address, in its IPv4 spelling if it has one, is in one of
-- the ranges that the allowlist's parser takes for always blocked exactly if the guard rejects the
-- address unconditionally. The address, so spelled, has its width.
pub is_unconditional-always_blocked :
    (ip : Ip)
    → IsAddress (unmap ip)
    → any (λ b. contains_ip b (unmap ip)) always_blocked_prefixes ≡ is_unconditional ip
unfolding is_unconditional
is_unconditional-always_blocked (v4 n) h = plain-always_blocked n h
is_unconditional-always_blocked (v6 n) h = elim (Bool-cases (n / 2 ^ 32 == 0xffff)) [
  | inl mapped ↦ rw mapped (plain-always_blocked (n % 2 ^ 32) (omega arith))
  | inr other ↦ rw other (ground (arith, rw other at h))
]
