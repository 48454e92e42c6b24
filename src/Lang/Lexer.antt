-- ===== src/Lang/Lexer.antt =====
-- include/ep2/lang/Lexer.h: the lexer.
pub mod Chars
pub mod Buffer
pub mod Scan
pub mod Natural
pub mod View
pub mod Peek
pub mod Ends
pub mod Bytes
pub mod Spelling
pub mod Branches
pub mod Words
pub mod Tokens
pub mod Lexemes
pub mod Stream
pub mod Tests
