-- ===== src/Access/Proxy/Forged.antt =====
-- src/access/cidr.rs: what a client writes into `X-Forwarded-For` does not change its key.
use zimi_rs.Base.{List}
