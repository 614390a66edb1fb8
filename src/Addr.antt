-- ===== src/Addr.antt =====
-- libchitcp/addr.c: socket addresses. A `sockaddr_storage` is its family, its address and its port,
-- the last two as they stand in memory, in network byte order; an address is one number, of 4 or of
-- 16 bytes. The `assert`s on the family are no part of the functions: without them a function runs
-- into its last line, which is modelled.
pub mod Laws
mod Tests
use chitcp.Base.{
  ℕ, ◌+◌, ◌*◌, ◌/◌, ◌%◌, ◌-◌, ◌^◌, Bool, true, false, not, ◌&&◌, if◌then◌else◌, ◌==◌, ltb, sub32,
}

-- `AF_UNSPEC` is what a cleared address holds.
pub data Family : Type 0 where
  af_unspec af_inet af_inet6 : Family

pub record Addr : Type 0 where
  pub family : Family
  pub ip : ℕ
  pub port : ℕ

abbrev pub cleared : Addr
cleared = record { family = af_unspec; ip = 0; port = 0 }

-- The families' numbers, of which the code takes differences.
abbrev pub family_code : Family → ℕ
family_code af_unspec = 0
family_code af_inet = 2
family_code af_inet6 = 10

abbrev pub same_family : Family → Family → Bool
same_family f g = family_code f == family_code g

-- `ntohs` and `htons` on a little-endian host.
unfoldable pub ntohs : ℕ → ℕ
ntohs x = x % 256 * 256 + x / 256 % 256

abbrev pub minus_one : ℕ
minus_one = 2 ^ 32 - 1

-- `in_port_t` has 16 bits, so the -1 for an unknown family comes out as 65535.
unfoldable pub get_addr_port : Addr → ℕ
get_addr_port a = elim a.family [ af_inet ↦ a.port | af_inet6 ↦ a.port | af_unspec ↦ 65535 ]

unfoldable pub set_addr_port : Addr → ℕ → Addr
set_addr_port a port = elim a.family [
  | af_inet ↦ record a { port = port }
  | af_inet6 ↦ record a { port = port }
  | af_unspec ↦ a
]

-- The sign of `memcmp` on two arrays, as an `int`.
abbrev pub memcmp : ℕ → ℕ → ℕ
memcmp a b = if a == b then 0 else if ltb a b then minus_one else 1

-- The results are `int`s, kept as patterns; callers only ask whether they are zero.
unfoldable pub addr_cmp : Addr → Addr → ℕ
addr_cmp a b =
    if not (same_family a.family b.family)
    then sub32 (family_code a.family) (family_code b.family)
    else elim a.family [
      | af_inet ↦ sub32 a.ip b.ip
      | af_inet6 ↦ memcmp a.ip b.ip
      | af_unspec ↦ minus_one
    ]

unfoldable pub addr_port_cmp : Addr → Addr → ℕ
addr_port_cmp a b =
    if not (same_family a.family b.family)
    then sub32 (family_code a.family) (family_code b.family)
    else elim a.family [
      | af_inet ↦ sub32 a.port b.port
      | af_inet6 ↦ sub32 a.port b.port
      | af_unspec ↦ minus_one
    ]

-- `htonl(INADDR_LOOPBACK)` is 127.0.0.1 with its first byte lowest, on a little-endian host;
-- `in6addr_loopback` is ::1, read as a big number.
abbrev pub loopback4 : ℕ
loopback4 = 127 + 2 ^ 24

-- The tests return an `int`; an unknown family gives -1, which is true in C.
unfoldable pub addr_is_loopback : Addr → Bool
addr_is_loopback a = elim a.family [
  | af_inet ↦ a.ip == loopback4
  | af_inet6 ↦ memcmp a.ip 1 == 0
  | af_unspec ↦ true
]

unfoldable pub addr_is_any : Addr → Bool
addr_is_any a = elim a.family [
  | af_inet ↦ a.ip == 0
  | af_inet6 ↦ memcmp a.ip 0 == 0
  | af_unspec ↦ true
]

unfoldable pub addr_set_any : Addr → Addr
addr_set_any a = elim a.family [
  | af_inet ↦ record a { ip = 0 }
  | af_inet6 ↦ record a { ip = 0 }
  | af_unspec ↦ a
]
