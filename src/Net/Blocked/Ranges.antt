-- ===== src/Net/Blocked/Ranges.antt =====
-- src/netguard.rs: the blocked IPv4 addresses as a table of networks.
use Prim.Native.Nat.{bit_and}
use zimi_rs.Base.{
  ℕ, zero, suc, ◌+◌, ◌-◌, ◌*◌, ◌/◌, ◌^◌, ◌<◌, ◌≡◌, refl, ◌∙◌, Bool, true, false, not, ◌&&◌, ◌||◌,
  List, [], ◌∷◌, arith, leb, ◌==◌, ==_iff, if◌then◌else◌, any,
}
use zimi_rs.Net.Ip.{Ipv4Addr, v4}
use zimi_rs.Net.Blocked.{
  is_blocked_v4, is_blocked_ip, is_link_local4, is_unspecified4, is_loopback4, is_documentation4,
  is_private4, is_cgnat4,
}

-- A network: an address as a number, and the length of its prefix.
abbrev Network : Type 0
Network = ℕ × ℕ

abbrev net : ℕ → ℕ → ℕ → ℕ → ℕ → Network
net a b c d prefix = (a * 2 ^ 24 + b * 2 ^ 16 + c * 2 ^ 8 + d, prefix)

unfoldable pub value4 : Ipv4Addr → ℕ
value4 a = a.o0 * 2 ^ 24 + a.o1 * 2 ^ 16 + a.o2 * 2 ^ 8 + a.o3

-- The first `prefix` bits agree.
pub in_net : Ipv4Addr → Network → Bool
unfolding value4
in_net a (base, prefix) = value4 a / 2 ^ (32 - prefix) == base / 2 ^ (32 - prefix)

-- Link-local with the metadata service, the unspecified address, and the documentation networks.
abbrev pub always_blocked : List Network
always_blocked =
    net 169 254 0 0 16
    ∷ net 0 0 0 0 32
    ∷ net 192 0 2 0 24
    ∷ net 198 51 100 0 24
    ∷ net 203 0 113 0 24
    ∷ []

abbrev pub loopback_nets : List Network
loopback_nets = net 127 0 0 0 8 ∷ []

abbrev pub private_nets : List Network
private_nets = net 10 0 0 0 8 ∷ net 172 16 0 0 12 ∷ net 192 168 0 0 16 ∷ net 100 64 0 0 10 ∷ []

pub record IsOctets (a : Ipv4Addr) : Type 0 where
  pub b0 : a.o0 < 256
  pub b1 : a.o1 < 256
  pub b2 : a.o2 < 256
  pub b3 : a.o3 < 256

-- The test holds at every number under the bound.
holds_under : (ℕ → Bool) → ℕ → Bool
holds_under test zero = true
holds_under test (suc bound) = holds_under test bound && test bound

holds_under-at :
    (test : ℕ → Bool) (bound x : ℕ) → holds_under test bound ≡ true → x < bound → test x ≡ true
unfolding holds_under
holds_under-at test zero x ok x< = absurd (omega arith)
holds_under-at test (suc bound) x ok x< = ground (arith, holds_under-at test bound x)

mask_table : holds_under (λ x. bit_and x 0xc0 == x / 64 * 64) 256 ≡ true
unfolding holds_under
mask_table = refl

top_two_bits : (x : ℕ) → x < 256 → bit_and x 0xc0 ≡ x / 64 * 64
top_two_bits x h =
    (==_iff (bit_and x 0xc0) (x / 64 * 64)).0
      (holds_under-at (λ n. bit_and n 0xc0 == n / 64 * 64) 256 x mask_table h)

-- Each network, as a test of the octets.
module _ (a : Ipv4Addr) (v : IsOctets a) where
  open a use {o0, o1, o2, o3}

  in_link_local : in_net a (net 169 254 0 0 16) ≡ (o0 == 169 && o1 == 254)
  unfolding in_net
  in_link_local = ground arith

  in_unspecified : in_net a (net 0 0 0 0 32) ≡ (o0 == 0 && o1 == 0 && o2 == 0 && o3 == 0)
  unfolding in_net
  in_unspecified = ground arith

  in_test_net :
      (b c d : ℕ)
      → b < 256
      → c < 256
      → d < 256
      → in_net a (net b c d 0 24) ≡ (o0 == b && o1 == c && o2 == d)
  unfolding in_net
  in_test_net b c d p q r = ground arith

  in_slash_8 : (b : ℕ) → in_net a (net b 0 0 0 8) ≡ (o0 == b)
  unfolding in_net
  in_slash_8 b = ground arith

  in_private_12 : in_net a (net 172 16 0 0 12) ≡ (o0 == 172 && leb 16 o1 && leb o1 31)
  unfolding in_net
  in_private_12 = ground arith

  in_private_16 : in_net a (net 192 168 0 0 16) ≡ (o0 == 192 && o1 == 168)
  unfolding in_net
  in_private_16 = ground arith

  in_cgnat : in_net a (net 100 64 0 0 10) ≡ (o0 == 100 && bit_and o1 0xc0 == 64)
  unfolding in_net
  in_cgnat = rw (top_two_bits o1 v.b1) (ground arith)

-- Loopback is tested first, and excludes the documentation and the private networks.
first_test :
    (p l ll un doc lo pr : Bool)
    → (lo ≡ true → doc ≡ false)
    → (lo ≡ true → pr ≡ false)
    → (if ll || un then true else if lo then not l else if doc then true else not p && pr)
      ≡ ((ll || (un || doc)) || (not l && lo) || (not p && pr))
first_test p l ll un doc true pr h k = ground (arith, h refl, k refl)
first_test p l ll un doc false pr h k = ground arith

-- `any` over the three lists, as the code groups its tests.
regroup :
    (p l ll un d1 d2 d3 lo p1 p2 p3 p4 : Bool)
    → ((ll || (un || (d1 || d2 || d3))) || (not l && lo) || (not p && (p1 || p2 || p3 || p4))) ≡ (
        (ll || (un || (d1 || (d2 || (d3 || false)))))
        || (not l && (lo || false))
        || (not p && (p1 || (p2 || (p3 || (p4 || false))))))
regroup p l ll un d1 d2 d3 lo p1 p2 p3 p4 = ground arith

module _ (a : Ipv4Addr) where
  loopback_not_documentation : is_loopback4 a ≡ true → is_documentation4 a ≡ false
  loopback_not_documentation h = ground arith

  loopback_not_private : is_loopback4 a ≡ true → (is_private4 a || is_cgnat4 a) ≡ false
  loopback_not_private h = ground arith

-- The tests on octets are exactly membership in the networks of the table: the first list is blocked
-- under every policy, loopback and the private networks unless the policy allows them.
pub is_blocked_v4_table :
    (a : Ipv4Addr) (allow_private allow_loopback : Bool)
    → IsOctets a
    → is_blocked_ip (v4 a) allow_private allow_loopback ≡ (
        any (in_net a) always_blocked
        || (not allow_loopback && any (in_net a) loopback_nets)
        || (not allow_private && any (in_net a) private_nets))
unfolding is_blocked_ip is_blocked_v4
is_blocked_v4_table a p l v =
    rw
      (
        in_link_local a v,
        in_unspecified a v,
        in_test_net a v 192 0 2 (omega arith) (omega arith) (omega arith),
        in_test_net a v 198 51 100 (omega arith) (omega arith) (omega arith),
        in_test_net a v 203 0 113 (omega arith) (omega arith) (omega arith),
        in_slash_8 a v 127,
        in_slash_8 a v 10,
        in_private_12 a v,
        in_private_16 a v,
        in_cgnat a v,
      )
      (first_test p l (is_link_local4 a) (is_unspecified4 a) (is_documentation4 a) (is_loopback4 a)
          (is_private4 a || is_cgnat4 a) (loopback_not_documentation a) (loopback_not_private a)
        ∙ regroup p l (is_link_local4 a) (is_unspecified4 a) (o0 == 192 && o1 == 0 && o2 == 2)
            (o0 == 198 && o1 == 51 && o2 == 100) (o0 == 203 && o1 == 0 && o2 == 113)
            (is_loopback4 a) (o0 == 10) (o0 == 172 && leb 16 o1 && leb o1 31)
            (o0 == 192 && o1 == 168) (is_cgnat4 a))
  where
    open a use {o0, o1, o2}
