-- ===== src/Coding.antt =====
-- moq-transport/src/coding: the codecs that every message is made of.
pub mod Outcome
pub mod Buffer
pub mod Decoder
pub mod Encoder
pub mod Rules
pub mod Codec
pub mod RoundTrip
pub mod Framed
pub mod Varint
pub mod Prefixed
pub mod Text
pub mod Sequence
pub mod Tuple
pub mod Params
pub mod Primitives
