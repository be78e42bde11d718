-- ===== src/Git.antt =====
-- git/: the Git smart HTTP proxy.
pub mod PktLine
pub mod UploadPack
pub mod Detect
pub mod Keys
pub mod Headers
pub mod Handler
pub mod CountWriter
pub mod Redirect
pub mod GitConfig
pub mod Credentials
pub mod Setup
