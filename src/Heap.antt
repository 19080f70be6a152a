-- ===== src/Heap.antt =====
-- SearchItem and HeapIterator of src/iterator/iterator.cpp and include/iterator/iterator.h, the
-- merge of all tables of a memory table.
pub mod Item
pub mod Merge
pub mod Source
pub mod Order
pub mod Drain
pub mod Loop
pub mod Tables
pub mod Once
pub mod View
pub mod Prefix
pub mod Predicate
pub mod Compare
mod Tests
