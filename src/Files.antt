-- ===== src/Files.antt =====
-- Files: StdFile (src/utils/std_file.cpp) and FileObj (src/utils/files.cpp).
pub mod Stream
pub mod Object
pub mod Slices
pub mod Laws
pub mod Mapped
pub mod MappedLaws
mod Tests
