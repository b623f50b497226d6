-- ===== src/Net/Blocked.antt =====
-- src/netguard.rs, `is_blocked_ip`: the addresses that must not be fetched. The predicates on
-- addresses are those of `std::net`.
pub mod Ranges
pub mod Embedded
mod Tests
use Prim.Native.Nat.{bit_and}
use zimi_rs.Base.{
  ℕ, ◌*◌, ◌/◌, ◌%◌, Bool, true, false, not, ◌&&◌, ◌||◌, Option, none, some, leb, ◌==◌,
  if◌then◌else◌,
}
use zimi_rs.Net.Ip.{Ipv4Addr, Ipv6Addr, IpAddr, v4, v6}

module _ (a : Ipv4Addr) where
  open a use {o0, o1, o2, o3}

  -- 169.254.0.0/16
  abbrev is_link_local4 : Bool
  is_link_local4 = o0 == 169 && o1 == 254

  abbrev is_unspecified4 : Bool
  is_unspecified4 = o0 == 0 && o1 == 0 && o2 == 0 && o3 == 0

  -- 127.0.0.0/8
  abbrev is_loopback4 : Bool
  is_loopback4 = o0 == 127

  -- 10.0.0.0/8, 172.16.0.0/12 and 192.168.0.0/16
  abbrev is_private4 : Bool
  is_private4 = o0 == 10 || (o0 == 172 && leb 16 o1 && leb o1 31) || (o0 == 192 && o1 == 168)

  abbrev is_documentation4 : Bool
  is_documentation4 =
      (o0 == 192 && o1 == 0 && o2 == 2)
      || (o0 == 198 && o1 == 51 && o2 == 100)
      || (o0 == 203 && o1 == 0 && o2 == 113)

  abbrev is_cgnat4 : Bool
  is_cgnat4 = o0 == 100 && bit_and o1 0xc0 == 64

-- The arm of an IPv4 address.
unfoldable pub is_blocked_v4 : Ipv4Addr → Bool → Bool → Bool
is_blocked_v4 a allow_private allow_loopback =
    if is_link_local4 a || is_unspecified4 a
    then true
    else if is_loopback4 a
    then not allow_loopback
    else if is_documentation4 a
    then true
    else not allow_private && (is_private4 a || is_cgnat4 a)

module _ (a : Ipv6Addr) where
  open a use {s0, s1, s2, s3, s4, s5, s6, s7}

  abbrev zero_high : Bool
  zero_high = s0 == 0 && s1 == 0 && s2 == 0 && s3 == 0

  abbrev is_unspecified6 : Bool
  is_unspecified6 = zero_high && s4 == 0 && s5 == 0 && s6 == 0 && s7 == 0

  abbrev is_loopback6 : Bool
  is_loopback6 = zero_high && s4 == 0 && s5 == 0 && s6 == 0 && s7 == 1

  -- `Ipv6Addr::to_ipv4`: the mapped and the compatible form.
  unfoldable pub to_ipv4 : Option Ipv4Addr
  to_ipv4 =
      if zero_high && s4 == 0 && (s5 == 0 || s5 == 0xffff)
      then some (record { o0 = s6 / 256; o1 = s6 % 256; o2 = s7 / 256; o3 = s7 % 256 })
      else none

  abbrev is_link_local6 : Bool
  is_link_local6 = bit_and s0 0xffc0 == 0xfe80

  abbrev is_special6 : Bool
  is_special6 =
      (s0 == 0x0064 && s1 == 0xff9b && s2 == 0 && s3 == 0) || (s0 == 0x2001 && s1 == 0x0db8)

  abbrev is_unique_local6 : Bool
  is_unique_local6 = bit_and s0 0xfe00 == 0xfc00

-- The arm of an IPv6 address that embeds no IPv4 address.
unfoldable pub is_blocked_native6 : Ipv6Addr → Bool → Bool
is_blocked_native6 a allow_private =
    if is_link_local6 a
    then true
    else if is_special6 a
    then true
    else not allow_private && is_unique_local6 a

abbrev blocked_embedded : Option Ipv4Addr → Ipv6Addr → Bool → Bool → Bool
blocked_embedded (some e) a allow_private allow_loopback =
    is_blocked_v4 e allow_private allow_loopback
blocked_embedded none a allow_private allow_loopback = is_blocked_native6 a allow_private

unfoldable pub is_blocked_v6 : Ipv6Addr → Bool → Bool → Bool
is_blocked_v6 a allow_private allow_loopback =
    if is_unspecified6 a
    then true
    else if is_loopback6 a
    then not allow_loopback
    else blocked_embedded (to_ipv4 a) a allow_private allow_loopback

unfoldable pub is_blocked_ip : IpAddr → Bool → Bool → Bool
is_blocked_ip (v4 a) = is_blocked_v4 a
is_blocked_ip (v6 a) = is_blocked_v6 a
