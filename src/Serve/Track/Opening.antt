-- ===== src/Serve/Track/Opening.antt =====
-- moq-transport/src/serve/track.rs: a reader of a track learns how its writer has gone.
