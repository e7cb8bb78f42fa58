-- ===== src/Watch.antt =====
-- moq-transport/src/watch: a state that several handles share, and a queue on top of it.
pub mod Word
pub mod State
pub mod Queue
