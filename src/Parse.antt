-- ===== src/Parse.antt =====
-- internal/parse: the syntax of an address on the command line.
pub mod Error
pub mod Scanner
pub mod Trim
pub mod Path
pub mod Escapes
pub mod Unquote
pub mod Options
pub mod Address
pub mod Print
