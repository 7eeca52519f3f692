-- ===== src/Classify/Index.antt =====
-- src/filter/classify.c: index_key, compare_index, compare_lookup and lookup, with no work counters
-- (`stats` is NULL).
pub mod Defs
pub mod Order
pub mod Bisect
pub mod Lookup
