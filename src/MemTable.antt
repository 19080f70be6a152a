-- ===== src/MemTable.antt =====
-- The memory table of src/memtable/memtable.cpp and include/memtable/memtable.h: the active skip
-- list and the frozen ones, the newest first. Each method is one step, but for `get` in Interleaving.
-- The limit of the size of one table, which the configuration gives, is the parameter `limit`.
pub mod Table
pub mod Read
pub mod Lookup
pub mod Laws
pub mod Batch
pub mod Flush
pub mod Interleaving
mod Tests
