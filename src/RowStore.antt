-- ===== src/RowStore.antt =====
-- storage/row_store.cpp: rows in the pages of a page file. Counters of 64 bits wrap; sizes in bytes
-- are taken not to.
pub mod Format
pub mod State
pub mod Paging
pub mod Contents
pub mod Rewriting
pub mod Growing
pub mod AllRows
pub mod Rewrite
pub mod Methods
pub mod Lookup
pub mod Refinement
pub mod Restoring
pub mod Refusals
mod Examples
