-- ===== src/Serialization.antt =====
-- The serializers of common/*_serialization.cpp.
pub mod Bounds
pub mod Sequence
pub mod Values
pub mod Rows
pub mod Catalog
mod Examples
