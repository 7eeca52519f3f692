-- ===== src/Cache.antt =====
-- src/filter/cache.c: the binary records of a cache, and the tests on their fields.
pub mod Encode
pub mod Fields
pub mod Numbers
pub mod Restore
pub mod Build
pub mod Dependencies
pub mod Framing
pub mod Ids
pub mod Validate
mod Tests
