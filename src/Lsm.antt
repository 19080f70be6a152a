-- ===== src/Lsm.antt =====
-- The engine, its front end and transactions (src/lsm/engine.cpp, src/lsm/transation.cpp,
-- src/lsm/two_merge_iterator.cpp and their headers).
pub mod Transaction
pub mod Engine
pub mod Front
pub mod TwoMerge
pub mod Calls
pub mod Redis
mod Tests
