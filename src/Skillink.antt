-- ===== src/Skillink.antt =====
-- The skill library of crates/skillink: the names of skills, and the plan of a synchronisation.
mod OrderedMap
mod Plan
pub mod Partition
mod Slug
mod Scan
pub mod Grammar
mod Tests
