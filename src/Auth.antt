-- ===== src/Auth.antt =====
-- Authentication: server/app/core/security.py, server/app/api/dependencies.py and the routes of
-- server/app/api/routes/auth.py and users.py.
pub mod Tokens
pub mod Principal
pub mod Members
pub mod Authentication
pub mod Revocation
pub mod Deactivation
pub mod Provisioning
pub mod Tests
pub mod Routes
pub mod Users
