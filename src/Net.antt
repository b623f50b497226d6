-- ===== src/Net.antt =====
-- Addresses, and src/netguard.rs, which decides what the service may fetch.
pub mod Ip
pub mod Blocked
pub mod Fetch
