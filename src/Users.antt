-- ===== src/Users.antt =====
-- users: the user store. Types, the operations in three modules, and what they guarantee.
pub mod Types
pub mod Save
pub mod Model
pub mod Change
pub mod Unique
pub mod Auth
pub mod Persist
