-- ===== src/Tests.antt =====
-- Runs of the codecs and the reader on concrete buffers.
mod Buffers
mod Values
mod Coding
mod Messages
mod Handshake
mod Writer
mod Watch
mod Sending
mod Serve
mod Tracks
mod Session
mod Streams
