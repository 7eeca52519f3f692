-- ===== src/Text.antt =====
-- The byte-level checks that every part of the filter shares.
pub mod Utf8
pub mod Ascii
pub mod Blank
pub mod Domain
pub mod Mailbox
pub mod Decimal
mod Tests
