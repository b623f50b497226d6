-- ===== src/Access/Proxy.antt =====
-- src/access/cidr.rs: trusted proxies and the address that a lockout is keyed by. The parsers of
-- addresses and of networks, and containment (crate ipnet), enter as `Nets`.
pub mod Forged
use mathlib.Core.Option.{get_or}
use zimi_rs.Base.{
  ℕ, Bool, true, false, not, ◌&&◌, Option, none, some, List, [], ◌∷◌, any, find, reverse, map, ◌==◌,
  leb, if◌then◌else◌, is_some, Text, codes, text_eq, trim, contains, split,
}
use zimi_rs.Net.Ip.{IpAddr, beq_ip}

-- A parsed network: its version and the length of its prefix, with the addresses it contains.
pub record IpNet : Type 0 where
  pub is_v4 : Bool
  pub prefix_len : ℕ
  pub contains_ip : IpAddr → Bool

pub record Nets : Type 0 where
  pub parse_ip : Text → Option IpAddr
  pub parse_net : Text → Option IpNet

module _ (nets : Nets) where
  unfoldable pub parse_cidr_entry : Text → Option IpNet
  parse_cidr_entry s = nets.parse_net (trim s)

  abbrev same_ip : IpAddr → Option IpAddr → Bool
  same_ip ip none = false
  same_ip ip (some i) = beq_ip i ip

  abbrev in_net : IpAddr → Option IpNet → Bool
  in_net ip none = false
  in_net ip (some net) = net.contains_ip ip

  abbrev entry_contains : IpAddr → Text → Bool
  entry_contains ip s =
      if text_eq s []
      then false
      else if not (contains b'/' s)
      then same_ip ip (nets.parse_ip s)
      else in_net ip (parse_cidr_entry s)

  unfoldable pub cidrs_contains : Text → IpAddr → Bool
  cidrs_contains cidrs ip = any (λ s. entry_contains ip (trim s)) (split b',' cidrs)

  abbrev over_broad : Option IpNet → Bool
  over_broad none = false
  over_broad (some net) = leb net.prefix_len (if net.is_v4 then 8 else 56)

  unfoldable pub has_over_broad_cidr : Text → Bool
  has_over_broad_cidr cidrs =
      if text_eq (trim cidrs) []
      then false
      else any (λ s. over_broad (parse_cidr_entry s)) (split b',' cidrs)

  abbrev zero_prefix : Option IpNet → Bool
  zero_prefix none = false
  zero_prefix (some net) = net.prefix_len == 0

  unfoldable pub has_zero_prefix_cidr : Text → Bool
  has_zero_prefix_cidr cidrs =
      if text_eq (trim cidrs) []
      then false
      else any (λ s. zero_prefix (parse_cidr_entry s)) (split b',' cidrs)

  abbrev push_some : Option IpAddr → List IpAddr → List IpAddr
  push_some none ips = ips
  push_some (some ip) ips = ip ∷ ips

  -- The addresses of the pieces that parse.
  unfoldable pub xff_entries : List Text → List IpAddr
  xff_entries [] = []
  xff_entries (s ∷ rest) = push_some (nets.parse_ip (trim s)) (xff_entries rest)

  abbrev key_of : Text → IpAddr → List IpAddr → IpAddr
  key_of cidrs peer [] = peer
  key_of cidrs peer (first ∷ rest) =
      get_or (find (λ c. not (cidrs_contains cidrs c)) (reverse (first ∷ rest))) first

  abbrev entries_of : Option Text → List IpAddr
  entries_of none = []
  entries_of (some xff) = xff_entries (split b',' xff)

  unfoldable pub client_ip_from_xff : Text → Option Text → IpAddr → IpAddr
  client_ip_from_xff cidrs xff peer =
      if not (cidrs_contains cidrs peer) then peer else key_of cidrs peer (entries_of xff)
