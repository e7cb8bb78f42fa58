-- ===== src/Watch/Word.antt =====
-- The counters of moq-transport/src/watch and moq-transport/src/serve: `u64`, and `usize` of 64 bits.
use linode_moq.Prelude.{ℕ, ◌+◌, ◌%◌}

-- `x + 1` in a release build, which wraps around.
abbrev pub wrapping_incr : ℕ → ℕ
wrapping_incr n = (n + 1) % 18446744073709551616
