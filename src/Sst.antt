-- ===== src/Sst.antt =====
-- The sorted tables on disk (src/sst, include/sst), and the Bloom filter (src/utils/bloom_filter.cpp).
pub mod Bloom
pub mod Table
pub mod Iterator
pub mod Concact
pub mod Laws
mod Tests
