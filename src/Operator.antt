-- ===== src/Operator.antt =====
-- pkg/operator: the providers that an instance starts with (Providers), what it learns of the others
-- (Status), what it then does (Execute), the loop of the two (Run), and the access control that it sets
-- up (Acl).
pub mod Status
pub mod Acl
pub mod Execute
pub mod Providers
pub mod Run
pub mod Loading
