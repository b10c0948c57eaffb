-- ===== src/Licensing.antt =====
-- licensing: how many users a machine may serve, and utils/random/rand.go.
pub mod Host
pub mod Aws
pub mod Azure
pub mod Clouds
pub mod Limits
pub mod Sizes
pub mod Keys
