-- ===== src/Server.antt =====
-- server/: the shared read-only search server's access control.
pub mod Acl
pub mod RateLimit
pub mod Session
pub mod Http
