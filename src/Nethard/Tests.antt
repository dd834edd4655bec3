-- ===== src/Nethard/Tests.antt =====
-- Tests of the guard: the addresses of the metadata services, private space with and without an
-- exemption, and the entries that the allowlist refuses.
use janus_secrets.Common.{◌≡◌, refl, true, false, List, [], ◌∷◌, any, arith, ok, err}
use janus_secrets.Nethard.{
  Ip, v4, v6, Prefix, contains_ip, Policy, is_unconditional, check_ip, always_blocked_prefixes,
  metadata_v6, entirely_always_blocked, cidr, address, malformed, always_blocked, mapped,
  parse_allow_entry, parse_allow,
}
use janus_secrets.Nethard.Ranges.{is_unconditional-always_blocked}
use janus_secrets.Nethard.Useless.{entirely_always_blocked-rejects}

-- 169.254.169.254, and the same in its IPv6 spelling
abbrev metadata : Ip
metadata = v4 0xa9fe_a9fe

abbrev metadata_mapped : Ip
metadata_mapped = v6 0xffff_a9fe_a9fe

-- 10.96.0.1 and 10.96.0.0/12
abbrev api_server : Ip
api_server = v4 0x0a60_0001

abbrev services : Prefix
services = record { address = v4 0x0a60_0000; bits = 12 }

-- 169.254.169.0/24
abbrev metadata_net : Prefix
metadata_net = record { address = v4 0xa9fe_a900; bits = 24 }

abbrev strict : List Prefix → Policy
strict prefixes = record { block_private = true; allow_proxy = false; allow = prefixes }

abbrev lenient : Policy
lenient = record { block_private = false; allow_proxy = false; allow = [] }

metadata-blocked : check_ip lenient metadata ≡ false
unfolding check_ip is_unconditional
metadata-blocked = refl

metadata_mapped-blocked : check_ip lenient metadata_mapped ≡ false
unfolding check_ip is_unconditional
metadata_mapped-blocked = refl

metadata_v6-blocked : check_ip lenient (v6 metadata_v6) ≡ false
unfolding check_ip is_unconditional
metadata_v6-blocked = refl

private-lenient : check_ip lenient api_server ≡ true
unfolding check_ip is_unconditional
private-lenient = refl

private-strict : check_ip (strict []) api_server ≡ false
unfolding check_ip is_unconditional
private-strict = refl

private-exempted : check_ip (strict (services ∷ [])) api_server ≡ true
unfolding check_ip is_unconditional
private-exempted = refl

-- 10.96.0.1/12 is kept as 10.96.0.0/12.
parse_allow-masks :
    parse_allow (cidr record { address = api_server; bits = 12 } ∷ address api_server false ∷ [])
    ≡ ok (services ∷ record { address = api_server; bits = 32 } ∷ [])
unfolding parse_allow parse_allow_entry entirely_always_blocked
parse_allow-masks = refl

parse_allow-refuses :
    parse_allow (cidr services ∷ cidr metadata_net ∷ malformed ∷ []) ≡ err always_blocked
unfolding parse_allow parse_allow_entry entirely_always_blocked
parse_allow-refuses = refl

parse_allow_entry-mapped : parse_allow_entry (address metadata_mapped false) ≡ err mapped
unfolding parse_allow_entry
parse_allow_entry-mapped = refl

refused : entirely_always_blocked metadata_net ≡ true
unfolding entirely_always_blocked
refused = refl

is_unconditional-always_blocked_example :
    any (λ b. contains_ip b metadata) always_blocked_prefixes ≡ is_unconditional metadata_mapped
is_unconditional-always_blocked_example =
    is_unconditional-always_blocked metadata_mapped (omega arith)

entirely_always_blocked-rejects_example :
    check_ip (strict (metadata_net ∷ [])) metadata_mapped ≡ false
entirely_always_blocked-rejects_example =
    entirely_always_blocked-rejects metadata_net metadata_mapped (strict (metadata_net ∷ []))
      (omega arith) (omega arith) refused refl
