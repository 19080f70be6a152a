-- ===== src/Config.antt =====
-- TomlConfig (src/config/config.cpp, include/config/config.h).
pub mod Values
pub mod File
pub mod Laws
mod Tests
