-- ===== src/Authz/Outcome.antt =====
-- The states that the operations of the enforcer may lead to.
pub mod Users
pub mod RoleRevocation
pub mod Roles
