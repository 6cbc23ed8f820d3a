-- ===== src/Http1Codec.antt =====
-- The HTTP/1 parser of crates/http1_codec: its files one by one, and what they promise.
pub mod Strings
pub mod Lossy
pub mod Target
pub mod Headers
pub mod Trimmed
pub mod Smuggling
pub mod Body
pub mod Slices
pub mod Fragments
pub mod Resumed
pub mod Splits
pub mod Chunks
pub mod Parser
pub mod Progress
pub mod Returns
pub mod Turns
pub mod Stream
pub mod Recovery
pub mod Interface
