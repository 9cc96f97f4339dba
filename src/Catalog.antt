-- ===== src/Catalog.antt =====
-- catalog/catalog_manager.cpp: databases as directories, and each table's descriptor in a file of its own.
pub mod Files
pub mod Checks
pub mod Manager
pub mod Paths
pub mod Steps
pub mod Tables
mod Examples
