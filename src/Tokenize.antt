-- ===== src/Tokenize.antt =====
-- tokenize.c: from the bytes of a file to tokens.
-- A `char *` is the list of the bytes from there to the terminating NUL, which is not in the list; a
-- read at the end of the list gives 0.
pub mod Result
pub mod Reads
pub mod Chars
pub mod Lines
pub mod Universal
pub mod Prepare
pub mod Escape
pub mod Literal
pub mod Number
pub mod Lexeme
pub mod Keyword
pub mod Scan
mod Tests
