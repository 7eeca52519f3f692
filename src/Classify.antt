-- ===== src/Classify.antt =====
-- src/filter/classify.c.
pub mod Best
pub mod Index
pub mod Build
pub mod Text
pub mod Message
mod Tests
