-- ===== src/Operator/Acl.antt =====
-- pkg/operator/acl.go: the access control that the seeder sets up in etcd.
pub mod Effects
pub mod Apply
pub mod Reconcile
pub mod Fixtures
mod Tests
