-- ===== src/Oidc.antt =====
-- auth/oidc: single sign-on by OpenID Connect, its store and the renewal of tokens.
pub mod Types
pub mod Store
pub mod Cleanup
pub mod Renewal
pub mod Token
