-- ===== src/Access.antt =====
-- src/access: the access-control policy objects.
pub mod RateLimit
pub mod Lockout
pub mod Proxy
pub mod Auth
