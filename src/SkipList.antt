-- ===== src/SkipList.antt =====
-- The skip list of src/skiplist/skipList.cpp and include/skiplist/skiplist.h.
-- Nodes stand in a store under addresses; a shared or weak pointer is an address or null (`none`).
-- `next` is the first address not yet allocated. What `dis_01(gen)` draws is the stream `coin`.
pub mod Node
pub mod Find
pub mod Write
pub mod Iterator
pub mod Chain
pub mod Search
pub mod View
pub mod Get
pub mod Overwrite
pub mod Splice
pub mod Insert
pub mod Levels
pub mod Size
pub mod Joined
pub mod PutTowers
pub mod PutStands
pub mod Put
pub mod Tower
pub mod Towered
pub mod Unlink
pub mod RemoveTowers
pub mod RemoveStands
pub mod RemoveValid
pub mod Erase
pub mod Bottom
pub mod Remove
pub mod RemoveLaws
pub mod Laws
pub mod Histories
pub mod Prefix
pub mod Seek
pub mod LastMatch
pub mod Range
pub mod Tests
