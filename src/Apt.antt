-- ===== src/Apt.antt =====
-- apt/apt.go: the proxy for package archives: which hosts and files it serves, and what of the
-- upstream servers' answers it keeps.
pub mod Paths
pub mod Addresses
pub mod Proxy
pub mod Setup
