-- ===== src/Go.antt =====
-- What the program takes from the Go language and its standard library.
pub mod Errors
pub mod Io
pub mod Text
pub mod Decimal
pub mod Run
pub mod Each
pub mod Split
pub mod Contains
pub mod Compare
