-- ===== src/Runtime.antt =====
-- runtime/storage_node_engine.cpp: catalog, tables, indexes and version logs behind one interface.
pub mod Parts
pub mod Maintenance
pub mod Operations
pub mod Interface
pub mod Dropping
mod Examples
