-- ===== src/Session.antt =====
-- moq-transport/src/session: what a session does with its control stream.
pub mod Error
pub mod Reader
pub mod Writer
pub mod Subscribe
pub mod Subscribed
pub mod Announce
pub mod Publisher
pub mod Announced
pub mod Subscriber
pub mod Handshake
