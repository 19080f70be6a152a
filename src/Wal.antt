-- ===== src/Wal.antt =====
-- The write-ahead log (src/wal/record.cpp, src/wal/wal.cpp and their headers).
pub mod Record
pub mod Log
pub mod Equality
mod Tests
