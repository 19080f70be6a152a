-- ===== src/Level.antt =====
-- Level_Iterator of src/lsm/level_iterator.cpp and include/lsm/level_iterator.h, the merge of the
-- iterators of all levels.
pub mod Base
pub mod Iterator
pub mod Lists
pub mod Least
pub mod Skip
pub mod Loop
pub mod Reads
pub mod Heap
pub mod Engine
mod Tests
