-- ===== src/Nethard.antt =====
-- The guard of outbound connections (internal/nethard): which resolved addresses may be dialled
-- (`checkIP`), and which entries an operator may exempt (allowlist.go). An address is its number,
-- of 32 or 128 bits. What reads an entry's text (netip) is a parameter.
pub mod Ranges
pub mod Useless
mod Tests
use janus_secrets.Common.{
  ℕ, ◌+◌, ◌-◌, ◌*◌, ◌/◌, ◌%◌, ◌^◌, Bool, true, false, ◌&&◌, ◌||◌, not, Option, none, some, List, [],
  ◌∷◌, any, leb, ◌==◌, if◌then◌else◌, Bytes, Result, ok, err,
}

pub data Ip : Type 0 where
  v4 v6 : ℕ → Ip

-- `Unmap`, and `To4`: an IPv4 address in its IPv6 spelling is that IPv4 address.
abbrev pub is_4in6 : Ip → Bool
is_4in6 (v4 n) = false
is_4in6 (v6 n) = n / 2 ^ 32 == 0xffff

abbrev pub unmap : Ip → Ip
unmap (v4 n) = v4 n
unmap (v6 n) = if n / 2 ^ 32 == 0xffff then v4 (n % 2 ^ 32) else v6 n

-- A byte of an address, as `ip[i]`.
abbrev octet4 : ℕ → ℕ → ℕ
octet4 i n = n / 2 ^ (24 - 8 * i) % 256

abbrev octet6 : ℕ → ℕ → ℕ
octet6 i n = n / 2 ^ (120 - 8 * i) % 256

-- `net.IP`'s tests, of an address that is unmapped. A mask of high bits is a quotient here.
abbrev is_unspecified : Ip → Bool
is_unspecified (v4 n) = n == 0
is_unspecified (v6 n) = n == 0

abbrev is_multicast : Ip → Bool
is_multicast (v4 n) = octet4 0 n / 16 == 14
is_multicast (v6 n) = octet6 0 n == 255

abbrev is_link_local_unicast : Ip → Bool
is_link_local_unicast (v4 n) = octet4 0 n == 169 && octet4 1 n == 254
is_link_local_unicast (v6 n) = octet6 0 n == 254 && octet6 1 n / 64 == 2

abbrev is_link_local_multicast : Ip → Bool
is_link_local_multicast (v4 n) = octet4 0 n == 224 && (octet4 1 n == 0 && octet4 2 n == 0)
is_link_local_multicast (v6 n) = octet6 0 n == 255 && octet6 1 n % 16 == 2

abbrev is_interface_local_multicast : Ip → Bool
is_interface_local_multicast (v4 n) = false
is_interface_local_multicast (v6 n) = octet6 0 n == 255 && octet6 1 n % 16 == 1

abbrev pub is_loopback : Ip → Bool
is_loopback (v4 n) = octet4 0 n == 127
is_loopback (v6 n) = n == 1

abbrev pub is_private : Ip → Bool
is_private (v4 n) =
    octet4 0 n == 10
    || (octet4 0 n == 172 && octet4 1 n / 16 == 1)
    || (octet4 0 n == 192 && octet4 1 n == 168)
is_private (v6 n) = octet6 0 n / 2 == 126

-- fd00:ec2::254
abbrev pub metadata_v6 : ℕ
metadata_v6 = 0xfd00_0ec2_0000_0000_0000_0000_0000_0254

abbrev is_metadata : Ip → Bool
is_metadata (v4 n) = false
is_metadata (v6 n) = n == metadata_v6

-- A prefix is its network address and its length.
pub record Prefix : Type 0 where
  pub address : Ip
  pub bits : ℕ

abbrev pub contains_number : ℕ → ℕ → ℕ → ℕ → Bool
contains_number width bits base n = n / 2 ^ (width - bits) == base / 2 ^ (width - bits)

-- `Contains`
abbrev pub contains_ip : Prefix → Ip → Bool
contains_ip p ip = elim p.address [
  | v4 base ↦ elim ip [ v4 n ↦ contains_number 32 p.bits base n | v6 n ↦ false ]
  | v6 base ↦ elim ip [ v4 n ↦ false | v6 n ↦ contains_number 128 p.bits base n ]
]

-- `Masked`
abbrev pub masked : Prefix → Prefix
masked p = elim p.address [
  | v4 n ↦ record p { address = v4 (n / 2 ^ (32 - p.bits) * 2 ^ (32 - p.bits)) }
  | v6 n ↦ record p { address = v6 (n / 2 ^ (128 - p.bits) * 2 ^ (128 - p.bits)) }
]

pub record Policy : Type 0 where
  pub block_private : Bool
  pub allow_proxy : Bool
  pub allow : List Prefix

-- The ranges that nothing can exempt. The tests read an IPv4 address in its IPv6 spelling as IPv4.
unfoldable pub is_unconditional : Ip → Bool
is_unconditional ip =
    let plain = unmap ip in
    is_unspecified plain
    || is_multicast plain
    || is_link_local_unicast plain
    || is_link_local_multicast plain
    || is_interface_local_multicast plain
    || is_metadata plain

-- `allowlisted`
abbrev pub allowlisted : Ip → List Prefix → Bool
allowlisted ip prefixes = any (λ p. contains_ip p ip) prefixes

-- `checkIP`, of a resolved address: whether it may be dialled.
unfoldable pub check_ip : Policy → Ip → Bool
check_ip policy ip =
    let plain = unmap ip in
    if is_unconditional ip
    then false
    else if policy.block_private && (is_loopback plain || is_private plain)
    then allowlisted plain policy.allow
    else true

-- `alwaysBlockedPrefixes`
abbrev pub always_blocked_prefixes : List Prefix
always_blocked_prefixes =
    record { address = v4 0; bits = 32 }
    ∷ record { address = v4 0xa9fe_0000; bits = 16 }
    ∷ record { address = v4 0xe000_0000; bits = 4 }
    ∷ record { address = v6 0; bits = 128 }
    ∷ record { address = v6 0xfe80_0000_0000_0000_0000_0000_0000_0000; bits = 10 }
    ∷ record { address = v6 0xff00_0000_0000_0000_0000_0000_0000_0000; bits = 8 }
    ∷ record { address = v6 metadata_v6; bits = 128 }
    ∷ []

-- `entirelyAlwaysBlocked`
unfoldable pub entirely_always_blocked : Prefix → Bool
entirely_always_blocked p =
    any (λ b. leb b.bits p.bits && contains_ip b p.address) always_blocked_prefixes

-- How an entry reads: a prefix with a slash, or an address, with or without a zone.
pub data Entry : Type 0 where
  cidr : Prefix → Entry
  address : Ip → Bool → Entry
  malformed : Entry

pub data Error : Type 0 where
  not_valid zoned mapped always_blocked : Error

abbrev check_entry : Prefix → Result Error Prefix
check_entry p =
    if is_4in6 p.address
    then err mapped
    else if entirely_always_blocked p
    then err always_blocked
    else ok p

-- `PrefixFrom(addr, addr.BitLen())`
abbrev single : Ip → Prefix
single ip = elim ip [
  | v4 n ↦ record { address = v4 n; bits = 32 }
  | v6 n ↦ record { address = v6 n; bits = 128 }
]

-- `parseAllowEntry`
unfoldable pub parse_allow_entry : Entry → Result Error Prefix
parse_allow_entry malformed = err not_valid
parse_allow_entry (cidr p) = check_entry (masked p)
parse_allow_entry (address ip zone) = if zone then err zoned else check_entry (single ip)

abbrev add_prefix : Result Error Prefix → Result Error (List Prefix) → Result Error (List Prefix)
add_prefix (err e) rest = err e
add_prefix (ok p) (err e) = err e
add_prefix (ok p) (ok ps) = ok (p ∷ ps)

-- `ParseAllow` of the entries between the commas that are not blank; the first bad one counts.
unfoldable pub parse_allow : List Entry → Result Error (List Prefix)
parse_allow [] = ok []
parse_allow (e ∷ entries) = add_prefix (parse_allow_entry e) (parse_allow entries)
