-- ===== src/Preprocess.antt =====
-- preprocess.c: macros and conditional inclusion.
-- The tokens are a stream that ends with the token of kind TK_EOF, which is `end`; behind it there
-- is nothing, and a read there is `overrun`. A token has its text in place of `loc` and `len`; the
-- file, the line and the origin, which messages and built-in macros use, are left out.
pub mod Hideset
pub mod Names
pub mod Stream
pub mod Tree
pub mod Text
pub mod Skip
pub mod Macro
pub mod State
pub mod Subst
pub mod Expand
pub mod Const
pub mod Directive
pub mod Loop
mod Runs
mod Tests
