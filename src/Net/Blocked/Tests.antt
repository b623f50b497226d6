-- ===== src/Net/Blocked/Tests.antt =====
-- Addresses that the guard must tell apart, and the theorems at concrete addresses.
use zimi_rs.Base.{◌≡◌, refl, true, false, not, ◌&&◌, ◌||◌, any, arith}
use zimi_rs.Net.Ip.{Ipv4Addr, ip4, ip6, v4}
use zimi_rs.Net.Blocked.{is_blocked_v4, is_blocked_v6, is_blocked_native6, to_ipv4, is_blocked_ip}
use zimi_rs.Net.Blocked.Ranges.{
  value4, in_net, always_blocked, loopback_nets, private_nets, is_blocked_v4_table,
}
use zimi_rs.Net.Blocked.Embedded.{
  mapped, compatible, is_blocked_ip-mapped, is_blocked_ip-compatible,
}

guard_runs : Unit {0}
unfolding is_blocked_v4 is_blocked_v6 is_blocked_native6 to_ipv4 is_blocked_ip
guard_runs = tt

abbrev metadata : Ipv4Addr
metadata = record { o0 = 169; o1 = 254; o2 = 169; o3 = 254 }

verdicts :
    (is_blocked_ip (v4 metadata) true true ≡ true)
    × (is_blocked_ip (mapped metadata) true true ≡ true)
    × (is_blocked_ip (compatible metadata) true true ≡ true)
    × (is_blocked_ip (ip4 10 1 2 3) false false ≡ true)
    × (is_blocked_ip (ip4 10 1 2 3) true false ≡ false)
    × (is_blocked_ip (ip4 100 127 255 255) false false ≡ true)
    × (is_blocked_ip (ip4 127 0 0 1) true false ≡ true)
    × (is_blocked_ip (ip4 8 8 8 8) false false ≡ false)
    × (is_blocked_ip (ip6 0 0 0 0 0 0 0 1) false true ≡ false)
    × (is_blocked_ip (ip6 0xfe80 0 0 0 0 0 0 1) true true ≡ true)
    × (is_blocked_ip (ip6 0xfd00 0 0 0 0 0 0 1) false false ≡ true)
unfolding guard_runs
verdicts = (refl, refl, refl, refl, refl, refl, refl, refl, refl, refl, refl)

is_blocked_v4_table_example : is_blocked_ip (v4 metadata) true true ≡ (
    any (in_net metadata) always_blocked
    || (not true && any (in_net metadata) loopback_nets)
    || (not true && any (in_net metadata) private_nets))
is_blocked_v4_table_example = is_blocked_v4_table metadata true true (omega arith)

is_blocked_ip-mapped_example :
    is_blocked_ip (mapped metadata) true false ≡ is_blocked_ip (v4 metadata) true false
is_blocked_ip-mapped_example = is_blocked_ip-mapped metadata true false (omega arith)

compatible-metadata :
    is_blocked_ip (compatible metadata) true false ≡ is_blocked_ip (v4 metadata) true false
unfolding value4
compatible-metadata = is_blocked_ip-compatible metadata true false (omega arith) (omega arith)
