-- ===== src/Schema.antt =====
-- src/schema: the stored records. An optional field is an `Option`, an enumeration a data type with
-- the source's values, and a timestamp the text that is stored.
pub mod Legacy
pub mod Reviews
pub mod Wiki
pub mod Lean
