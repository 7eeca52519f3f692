-- ===== src/Policy.antt =====
-- src/filter/policy.c: the rules of a policy, and how they are read from their sources.
pub mod Rules
pub mod Lex
pub mod Parse
pub mod Compare
pub mod Resolve
pub mod Build
pub mod Builtins
mod Tests
