-- ===== src/Tester.antt =====
-- pkg/tester: the failures that the tester injects (Cases), its health check (Health), one test (Trial), and
-- the load that it puts on the cluster (Stress).
pub mod Cases
pub mod Health
pub mod Trial
pub mod Stress
