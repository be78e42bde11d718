-- ===== src/Npm.antt =====
-- npm/: the proxy for package registries: its routes, its keys, and what it serves to whom.
pub mod Paths
pub mod Keys
pub mod Allowlist
pub mod Proxy
pub mod Setup
pub mod Lockfile
