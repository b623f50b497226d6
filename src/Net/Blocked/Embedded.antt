-- ===== src/Net/Blocked/Embedded.antt =====
-- src/netguard.rs: an IPv4 address cannot be smuggled in as IPv6, and the ranges that no policy opens.
use zimi_rs.Base.{
  ℕ, ◌+◌, ◌*◌, ◌/◌, ◌%◌, ◌≤◌, ◌<◌, ◌≡◌, Bool, true, not, ◌&&◌, ◌||◌, Option, none, some, arith,
  ◌==◌, if◌then◌else◌,
}
use zimi_rs.Net.Ip.{Ipv4Addr, Ipv6Addr, IpAddr, ip6, v4, v6}
use zimi_rs.Net.Blocked.{
  is_blocked_v4, is_blocked_v6, is_blocked_native6, to_ipv4, is_blocked_ip, is_loopback4,
  is_unspecified4, is_link_local4, is_documentation4, is_private4, is_cgnat4, is_link_local6,
  is_special6, is_unique_local6, is_unspecified6, is_loopback6, blocked_embedded,
}
use zimi_rs.Net.Blocked.Ranges.{IsOctets, value4}

-- `::ffff:a.b.c.d` and `::a.b.c.d`.
abbrev pub mapped : Ipv4Addr → IpAddr
mapped a = ip6 0 0 0 0 0 0xffff (a.o0 * 256 + a.o1) (a.o2 * 256 + a.o3)

abbrev pub compatible : Ipv4Addr → IpAddr
compatible a = ip6 0 0 0 0 0 0 (a.o0 * 256 + a.o1) (a.o2 * 256 + a.o3)

octets_of_segment : (x y : ℕ) → y < 256 → ((x * 256 + y) / 256 ≡ x) × ((x * 256 + y) % 256 ≡ y)
octets_of_segment x y h = omega arith

-- Under every policy the mapped form of an IPv4 address is blocked exactly when the address is.
pub is_blocked_ip-mapped :
    (a : Ipv4Addr) (p l : Bool)
    → IsOctets a
    → is_blocked_ip (mapped a) p l ≡ is_blocked_ip (v4 a) p l
unfolding is_blocked_ip is_blocked_v6 to_ipv4
is_blocked_ip-mapped a p l v =
    let (hi, lo) = octets_of_segment a.o0 a.o1 v.b1 in
    let (hi', lo') = octets_of_segment a.o2 a.o3 v.b3 in rw (hi, lo, hi', lo')

-- Above `::1` the tests for the two reserved addresses fail.
not_reserved :
    (a : Ipv4Addr)
    → 2 ≤ value4 a
    → (b c : Bool)
    → (if a.o0 * 256 + a.o1 == 0 && a.o2 * 256 + a.o3 == 0
        then true
        else if a.o0 * 256 + a.o1 == 0 && a.o2 * 256 + a.o3 == 1
        then c
        else b)
      ≡ b
unfolding value4
not_reserved a h b c = ground arith

-- So is the compatible form, but for the two addresses that IPv6 gives a meaning of its own.
pub is_blocked_ip-compatible :
    (a : Ipv4Addr) (p l : Bool)
    → IsOctets a
    → 2 ≤ value4 a
    → is_blocked_ip (compatible a) p l ≡ is_blocked_ip (v4 a) p l
unfolding is_blocked_ip is_blocked_v6 to_ipv4
is_blocked_ip-compatible a p l v h =
    let (hi, lo) = octets_of_segment a.o0 a.o1 v.b1 in
    let (hi', lo') = octets_of_segment a.o2 a.o3 v.b3 in
    rw (hi, lo, hi', lo') (not_reserved a h (is_blocked_v4 a p l) (not l))

module _ (p l p' l' : Bool) (h : p ≡ true → p' ≡ true) (k : l ≡ true → l' ≡ true) where
  first_test_mono :
      (always lo doc pr : Bool)
      → (if always then true else if lo then not l' else if doc then true else not p' && pr) ≡ true
      → (if always then true else if lo then not l else if doc then true else not p && pr) ≡ true
  first_test_mono always lo doc pr blocked = ground arith

  last_test_mono :
      (local special unique : Bool)
      → (if local then true else if special then true else not p' && unique) ≡ true
      → (if local then true else if special then true else not p && unique) ≡ true
  last_test_mono local special unique blocked = ground arith

  outer_test_mono :
      (unset lo b' b : Bool)
      → (b' ≡ true → b ≡ true)
      → (if unset then true else if lo then not l' else b') ≡ true
      → (if unset then true else if lo then not l else b) ≡ true
  outer_test_mono unset lo b' b step blocked = ground arith

  is_blocked_v4_mono : (a : Ipv4Addr) → is_blocked_v4 a p' l' ≡ true → is_blocked_v4 a p l ≡ true
  unfolding is_blocked_v4
  is_blocked_v4_mono a blocked =
      first_test_mono (is_link_local4 a || is_unspecified4 a) (is_loopback4 a) (is_documentation4 a)
        (is_private4 a || is_cgnat4 a) blocked

  native6_mono : (a : Ipv6Addr) → is_blocked_native6 a p' ≡ true → is_blocked_native6 a p ≡ true
  unfolding is_blocked_native6
  native6_mono a blocked =
      last_test_mono (is_link_local6 a) (is_special6 a) (is_unique_local6 a) blocked

  embedded_mono :
      (o : Option Ipv4Addr) (a : Ipv6Addr)
      → blocked_embedded o a p' l' ≡ true
      → blocked_embedded o a p l ≡ true
  embedded_mono none a blocked = native6_mono a blocked
  embedded_mono (some e) a blocked = is_blocked_v4_mono e blocked

  is_blocked_v6_mono : (a : Ipv6Addr) → is_blocked_v6 a p' l' ≡ true → is_blocked_v6 a p l ≡ true
  unfolding is_blocked_v6
  is_blocked_v6_mono a blocked =
      outer_test_mono (is_unspecified6 a) (is_loopback6 a) (blocked_embedded (to_ipv4 a) a p' l')
        (blocked_embedded (to_ipv4 a) a p l) (embedded_mono (to_ipv4 a) a) blocked

-- Relaxing the policy never blocks more: what is blocked with both permissions given is blocked
-- without them, over IPv4 and IPv6 alike.
pub is_blocked_ip_mono :
    (ip : IpAddr) (p l p' l' : Bool)
    → (p ≡ true → p' ≡ true)
    → (l ≡ true → l' ≡ true)
    → is_blocked_ip ip p' l' ≡ true
    → is_blocked_ip ip p l ≡ true
unfolding is_blocked_ip
is_blocked_ip_mono (v4 a) p l p' l' h k blocked = is_blocked_v4_mono p l p' l' h k a blocked
is_blocked_ip_mono (v6 a) p l p' l' h k blocked = is_blocked_v6_mono p l p' l' h k a blocked
