-- ===== src/Classify/Message.antt =====
-- src/filter/classify.c: jf_policy_classify, on arguments that are not NULL.
pub mod Defs
pub mod Spec
pub mod Typed
pub mod Legacy
pub mod Winner
