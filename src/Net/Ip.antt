-- ===== src/Net/Ip.antt =====
-- `std::net::IpAddr`, with its octets and segments as numbers.
use zimi_rs.Base.{ℕ, ◌≡◌, ◌↔◌, Bool, true, false, ◌&&◌, ◌==◌, arith, Eq}

pub record Ipv4Addr : Type 0 where
  pub o0 : ℕ
  pub o1 : ℕ
  pub o2 : ℕ
  pub o3 : ℕ

pub record Ipv6Addr : Type 0 where
  pub s0 : ℕ
  pub s1 : ℕ
  pub s2 : ℕ
  pub s3 : ℕ
  pub s4 : ℕ
  pub s5 : ℕ
  pub s6 : ℕ
  pub s7 : ℕ

pub data IpAddr : Type 0 where
  v4 : Ipv4Addr → IpAddr
  v6 : Ipv6Addr → IpAddr

abbrev pub ip4 : ℕ → ℕ → ℕ → ℕ → IpAddr
ip4 a b c d = v4 (record { o0 = a; o1 = b; o2 = c; o3 = d })

abbrev pub ip6 : ℕ → ℕ → ℕ → ℕ → ℕ → ℕ → ℕ → ℕ → IpAddr
ip6 a b c d e f g h = v6 (record { s0 = a; s1 = b; s2 = c; s3 = d; s4 = e; s5 = f; s6 = g; s7 = h })

abbrev pub beq4 : Ipv4Addr → Ipv4Addr → Bool
beq4 a b = a.o0 == b.o0 && a.o1 == b.o1 && a.o2 == b.o2 && a.o3 == b.o3

abbrev pub beq6_high : Ipv6Addr → Ipv6Addr → Bool
beq6_high a b = a.s0 == b.s0 && a.s1 == b.s1 && a.s2 == b.s2 && a.s3 == b.s3

abbrev pub beq6_low : Ipv6Addr → Ipv6Addr → Bool
beq6_low a b = a.s4 == b.s4 && a.s5 == b.s5 && a.s6 == b.s6 && a.s7 == b.s7

unfoldable pub beq_ip : IpAddr → IpAddr → Bool
beq_ip (v4 a) (v4 b) = beq4 a b
beq_ip (v6 a) (v6 b) = beq6_high a b && beq6_low a b
beq_ip (v4 a) (v6 b) = false
beq_ip (v6 a) (v4 b) = false

pub beq_ip_iff : (a b : IpAddr) → (beq_ip a b ≡ true) ↔ (a ≡ b)
unfolding beq_ip
beq_ip_iff (v4 a) (v4 b) = (λ h. ground arith, λ h. ground arith)
beq_ip_iff (v6 a) (v6 b) = (λ h. ground arith, λ h. ground arith)
beq_ip_iff (v4 a) (v6 b) = ground arith
beq_ip_iff (v6 a) (v4 b) = ground arith

instance abbrev pub ip_keys : Eq IpAddr
ip_keys = record { beq = beq_ip; beq_iff = beq_ip_iff }
