-- ===== src/Nethard/Useless.antt =====
-- What a refused entry of the allowlist would have exempted: nothing.
use native.Mathlib.Nat.{pow-suc, div-div-eq-div-mul}
use janus_secrets.Common.{
  ℕ, zero, suc, ◌+◌, ◌-◌, ◌/◌, ◌^◌, ◌≤◌, ◌≡◌, refl, sym, ap, ◌∙◌, true, false, ◌&&◌, leb, any,
  any_intro, any_elim, arith,
}
use janus_secrets.Nethard.{
  Ip, v4, v6, Prefix, contains_number, contains_ip, unmap, Policy, check_ip,
  always_blocked_prefixes, entirely_always_blocked,
}
use janus_secrets.Nethard.Ranges.{IsAddress, is_unconditional-always_blocked}

-- How many bits an address of the family has.
abbrev pub width : Ip → ℕ
width (v4 n) = 32
width (v6 n) = 128

-- Two numbers that agree above a bit agree above a higher one.
agree_above : (d k a b : ℕ) → a / 2 ^ k ≡ b / 2 ^ k → a / 2 ^ (d + k) ≡ b / 2 ^ (d + k)
agree_above zero k a b h = let none_more : zero + k ≡ k = omega arith in rw none_more h
agree_above (suc d) k a b h =
    let one_more : suc d + k ≡ suc (d + k) = omega arith in
    rw
      (
        one_more,
        pow-suc 2 (d + k),
        ← div-div-eq-div-mul a (2 ^ (d + k)) 2,
        ← div-div-eq-div-mul b (2 ^ (d + k)) 2,
      )
      (ap (λ x. x / 2) (agree_above d k a b h))

agree_from : (k m a b : ℕ) → k ≤ m → a / 2 ^ k ≡ b / 2 ^ k → a / 2 ^ m ≡ b / 2 ^ m
agree_from k m a b le h =
    let restored : m - k + k ≡ m = omega arith in
    let above = agree_above (m - k) k a b h in let moved = rw restored at above in moved

-- A prefix covers what a longer prefix inside it covers.
contains_number-longer :
    (w few many base inside n : ℕ)
    → few ≤ many
    → many ≤ w
    → contains_number w few base inside ≡ true
    → contains_number w many inside n ≡ true
    → contains_number w few base n ≡ true
contains_number-longer w few many base inside n shorter fits around within =
    let above = agree_from (w - many) (w - few) n inside (ground arith) (ground arith) in
    ground (arith, above)

contains_ip-longer :
    (few many : ℕ) (base inside ip : Ip)
    → few ≤ many
    → many ≤ width inside
    → contains_ip record { address = base; bits = few } inside ≡ true
    → contains_ip record { address = inside; bits = many } ip ≡ true
    → contains_ip record { address = base; bits = few } ip ≡ true
contains_ip-longer few many (v4 b) (v4 i) (v4 n) shorter fits h g =
    contains_number-longer 32 few many b i n shorter fits h g
contains_ip-longer few many (v6 b) (v6 i) (v6 n) shorter fits h g =
    contains_number-longer 128 few many b i n shorter fits h g
contains_ip-longer few many (v4 b) (v6 i) ip shorter fits h g = cc
contains_ip-longer few many (v6 b) (v4 i) ip shorter fits h g = cc
contains_ip-longer few many (v4 b) (v4 i) (v6 n) shorter fits h g = cc
contains_ip-longer few many (v6 b) (v6 i) (v4 n) shorter fits h g = cc

covered_by_range :
    (p : Prefix) (ip : Ip)
    → p.bits ≤ width p.address
    → entirely_always_blocked p ≡ true
    → contains_ip p ip ≡ true
    → any (λ b. contains_ip b ip) always_blocked_prefixes ≡ true
unfolding entirely_always_blocked
covered_by_range p ip fits refused within =
    let (b, member, both) =
      any_elim (λ b. leb b.bits p.bits && contains_ip b p.address) always_blocked_prefixes
        refused in
    any_intro (λ b. contains_ip b ip) b always_blocked_prefixes member
      (contains_ip-longer b.bits p.bits b.address p.address ip (ground (arith, both)) fits
        (ground (arith, both)) within)

-- An entry that the allowlist's parser refuses as always blocked would have had no effect: the
-- guard rejects every address in it, whatever the policy. The prefix is no longer than an address
-- of its family, and the address, as the guard reads it, has its width.
pub entirely_always_blocked-rejects :
    (p : Prefix) (ip : Ip) (policy : Policy)
    → p.bits ≤ width p.address
    → IsAddress (unmap ip)
    → entirely_always_blocked p ≡ true
    → contains_ip p (unmap ip) ≡ true
    → check_ip policy ip ≡ false
unfolding entirely_always_blocked check_ip
entirely_always_blocked-rejects p ip policy fits valid refused within =
    let covers = covered_by_range p (unmap ip) fits refused within in
    let blocked = sym (is_unconditional-always_blocked ip valid) ∙ covers in rw blocked refl
