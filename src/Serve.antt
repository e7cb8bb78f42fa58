-- ===== src/Serve.antt =====
-- moq-transport/src/serve: tracks and their streams, groups, objects and datagrams, each split into a
-- writer and a reader that share a state. A writer and a reader name that state by its address.
pub mod Error
pub mod Log
pub mod Info
pub mod Latest
pub mod Subgroup
pub mod Stream
pub mod Objects
pub mod Datagrams
pub mod Track
pub mod Tracks
