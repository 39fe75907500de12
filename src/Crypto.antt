-- ===== src/Crypto.antt =====
-- crates/asli-crypto: what is sealed, how it is laid out in bytes, and who may connect.
pub mod Direct
pub mod Signing
pub mod Enroll
pub mod Offer
pub mod About
pub mod Error
pub mod Aead
pub mod Clip
pub mod Chunk
pub mod Base32
pub mod Token
pub mod Msg
pub mod Fields
pub mod File
pub mod Auth
pub mod Primitives
pub mod Identity
pub mod Announce
pub mod Card
pub mod Device
pub mod Rekey
pub mod Runs
