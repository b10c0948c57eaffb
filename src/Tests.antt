-- ===== src/Tests.antt =====
-- The theorems at concrete inputs, and runs of the code.
mod Data
mod Users
mod Login
mod Files
mod Oidc
mod Provisioning
mod Licenses
mod Server
mod Setup
mod Saml
mod SignOn
mod Access
mod Settings
mod Keys
mod UserList
