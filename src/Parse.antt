-- ===== src/Parse.antt =====
-- src/parse.c: the parser of the command files.
pub mod Lines
pub mod Params
pub mod Sections
pub mod Unquote
pub mod Units
mod Examples
