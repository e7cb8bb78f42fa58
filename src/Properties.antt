-- ===== src/Properties.antt =====
-- What the codecs and the reader promise to their callers.
pub mod Coding
pub mod Messages
pub mod Data
pub mod Setup
pub mod Streams
