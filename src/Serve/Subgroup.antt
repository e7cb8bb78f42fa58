-- ===== src/Serve/Subgroup.antt =====
-- moq-transport/src/serve/subgroup.rs: the objects of a subgroup, subgroups, and the subgroups of a track.
pub mod Object
pub mod Group
pub mod Groups
