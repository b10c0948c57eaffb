-- ===== src/Login.antt =====
-- rest/login: the count of failed attempts and the check of a login request.
pub mod Attempts
pub mod Limit
pub mod Authenticate
pub mod Granted
