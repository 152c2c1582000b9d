-- ===== src/Storage.antt =====
-- Package storage/utils: decoding a contract's storage by its layout.
pub mod Bytes
pub mod Variable
pub mod Value
pub mod Label
pub mod Layout
pub mod Mapping
mod LayoutTests
mod Tests
