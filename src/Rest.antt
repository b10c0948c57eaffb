-- ===== src/Rest.antt =====
-- rest: the handlers of the HTTP server that log users in and manage them.
pub mod Server
pub mod Config
pub mod Login
pub mod Lockout
pub mod Accounts
pub mod AccountLaws
pub mod Profile
pub mod Setup
pub mod SignOn
pub mod Middleware
pub mod Settings
pub mod Keys
pub mod UserList
pub mod Start
