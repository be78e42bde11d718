-- ===== src/S3.antt =====
-- s3/: the caching proxy for object stores. What it keeps of a response and for how long, the keys
-- of its entries, and the parts of a body that it serves.
pub mod Range
pub mod Writer
pub mod Fresh
pub mod Keys
pub mod Entries
pub mod Security
pub mod Signer
pub mod Setup
pub mod Reply
pub mod Target
pub mod Server
pub mod Config
