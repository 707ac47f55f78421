-- ===== src/Core.antt =====
-- crates/smt-core: sorts, terms and their hash-consing arenas.
pub mod Sort
pub mod Op
pub mod Term
pub mod Meaning
