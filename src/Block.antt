-- ===== src/Block.antt =====
-- Blocks of the sorted tables (src/block, include/block).
pub mod Data
pub mod Iterator
pub mod Meta
pub mod Layout
mod Tests
