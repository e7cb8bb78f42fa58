-- ===== src/Coding/Rules.antt =====
-- What it means that an encoder and a decoder speak one wire format, and the rules by which such
-- facts about a whole message follow from those about its fields.
pub mod Writes
pub mod Reads
pub mod Hungry
pub mod Parses
pub mod Ensures
pub mod ReadsAll
pub mod Stops
