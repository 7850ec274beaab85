-- ===== src/Etcd.antt =====
-- pkg/etcd: the configuration of the embedded etcd, its client and its server.
pub mod Config
pub mod Validate
pub mod Client
pub mod Effects
pub mod Server
mod Tests
