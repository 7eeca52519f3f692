-- ===== src/Sorter.antt =====
-- The C library's qsort, as an interface: the policy, the index and the products are sorted by it.
pub mod Insertion
pub mod Defs
pub use Defs.{Sorter, IsComparison, Sorted, Perm-In, Perm-count}
